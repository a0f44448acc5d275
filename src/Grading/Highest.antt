-- ===== src/Grading/Highest.antt =====
-- The band of a score in a configured scale, which is sorted.
use acadid.Common.{
  ℕ, ◌≤◌, ltb, ltb→lt, Option, some, List, [], ◌∷◌, All, true, ◌≡◌, sym, ap, ◌∙◌, subst, inl, inr,
  Bool-cases, arith, some-eq-some,
}
use mathlib.Core.List.{Memᴰ}
use acadid.Common.Outcome.{ok, >>=-eq-ok, present-eq-ok, ok-injective}
use acadid.Grading.Scale.{
  Band, Candidate, in_band, find_band, bands_of, insert_band, sort_bands, normalize_scale,
}

IsSorted : List Band → Type 0
IsSorted [] = Unit
IsSorted (b ∷ bs) = All (λ c. c.min_score ≤ b.min_score) bs × IsSorted bs

All-insert_band {κ} :
    (P : Band → Type κ) (b : Band) (cs : List Band) → P b → All P cs → All P (insert_band b cs)
unfolding insert_band
All-insert_band P b [] p h = (p, tt)
All-insert_band P b (c ∷ cs) p (q, qs) = elim (Bool-cases (ltb b.min_score c.min_score)) [
  | inl below ↦ rw below (q, All-insert_band P b cs p qs)
  | inr above ↦ rw above (p, (q, qs))
]

All-below :
    (b c : Band) (cs : List Band)
    → c.min_score ≤ b.min_score
    → All (λ d. d.min_score ≤ c.min_score) cs
    → All (λ d. d.min_score ≤ b.min_score) cs
All-below b c [] le h = tt
All-below b c (d ∷ ds) le (p, ps) = (omega (arith, le, p), All-below b c ds le ps)

insert_band-IsSorted : (b : Band) (cs : List Band) → IsSorted cs → IsSorted (insert_band b cs)
unfolding insert_band IsSorted
insert_band-IsSorted b [] h = (tt, tt)
insert_band-IsSorted b (c ∷ cs) (below_c, sorted) =
    elim (Bool-cases (ltb b.min_score c.min_score)) [
      | inl below ↦ rw below (
        All-insert_band (λ d. d.min_score ≤ c.min_score) b cs
            (ground (arith, ltb→lt b.min_score c.min_score below)) below_c,
        insert_band-IsSorted b cs sorted,
      )
      | inr above ↦
          let le : c.min_score ≤ b.min_score = ground arith in
          rw above ((le, All-below b c cs le below_c), (below_c, sorted))
    ]

sort_bands-IsSorted : (bs : List Band) → IsSorted (sort_bands bs)
unfolding sort_bands IsSorted
sort_bands-IsSorted [] = tt
sort_bands-IsSorted (b ∷ bs) = insert_band-IsSorted b (sort_bands bs) (sort_bands-IsSorted bs)

All-mem {ℓ κ} : {A : Type ℓ} (P : A → Type κ) (x : A) (xs : List A) → Memᴰ x xs → All P xs → P x
All-mem P x [] m h = elim m [ ]
All-mem P x (y ∷ ys) (Memᴰ.head e) (p, ps) = subst P (sym e) p
All-mem P x (y ∷ ys) (Memᴰ.tail m) (p, ps) = All-mem P x ys m ps

find_band-IsSorted :
    (score : ℕ) (b c : Band) (bs : List Band)
    → IsSorted bs
    → find_band score bs ≡ some b
    → Memᴰ c bs
    → in_band score c ≡ true
    → c.min_score ≤ b.min_score
unfolding IsSorted
find_band-IsSorted score b c [] sorted found m fits = elim m [ ]
find_band-IsSorted score b c (d ∷ ds) (below, sorted) found (Memᴰ.head e) fits =
    let same = some-eq-some (rw (subst (λ x. in_band score x ≡ true) e fits) at found) in
    omega (arith, ap (λ x. x.min_score) (e ∙ same))
find_band-IsSorted score b c (d ∷ ds) (below, sorted) found (Memᴰ.tail m) fits =
    elim (Bool-cases (in_band score d)) [
      | inl first ↦
          subst (λ x. c.min_score ≤ x.min_score) (some-eq-some (rw first at found))
            (All-mem (λ x. x.min_score ≤ d.min_score) c ds m below)
      | inr other ↦ find_band-IsSorted score b c ds sorted (rw other at found) m fits
    ]

-- In a scale that is accepted, the band of a score begins at the highest minimum of the bands that
-- the score falls in.
pub normalize_scale-highest :
    (scale : Option (List Candidate)) (max_score score : ℕ) (bands : List Band) (b c : Band)
    → normalize_scale scale max_score ≡ ok bands
    → find_band score bands ≡ some b
    → Memᴰ c bands
    → in_band score c ≡ true
    → c.min_score ≤ b.min_score
unfolding normalize_scale
normalize_scale-highest scale max_score score bands b c accepted found there fits =
    let (candidates, given, made) = present-eq-ok scale _ _ accepted in
    let (raw, read, sorted) = >>=-eq-ok (bands_of max_score candidates) _ made in
    find_band-IsSorted score b c bands
      (subst IsSorted (sym (ok-injective sorted)) (sort_bands-IsSorted raw)) found there fits
