-- ===== src/Academics/Current.antt =====
-- The sessions of an institution: at most one of them is current.
use acadid.Common.{
  String, some, [], ◌∷◌, Bool, true, false, not, ◌&&◌, ◌≡◌, refl, sym, ap, ◌∙◌, subst, inl, inr,
  ◌==◌, string_Eq, if◌then◌else◌, Bool-cases, arith, some-eq-some,
}
use acadid.Common.Assoc.{Assoc, lookup, put, lookup-put_cases}
use acadid.Academics.{Session}
use acadid.Academics.Sessions.{is_current_of, clear_current, clear_others}

pub record IsSingle (m : Assoc String Session) : Type 0 where
  pub keyed : (k : String) (s : Session) → lookup k m ≡ some s → s.uuid ≡ k
  pub one_current :
      (i j k : String) (s t : Session)
      → lookup j m ≡ some s
      → lookup k m ≡ some t
      → is_current_of i s ≡ true
      → is_current_of i t ≡ true
      → j ≡ k

-- No session under another key is current with this one.
abbrev pub IsAlone : Session → Assoc String Session → Type 0
IsAlone s m =
    (k i : String) (t : Session)
    → lookup k m ≡ some t
    → (s.uuid == k) ≡ false
    → is_current_of i s ≡ true
    → is_current_of i t ≡ false

pub put-IsSingle :
    (s : Session) (m : Assoc String Session) → IsSingle m → IsAlone s m → IsSingle (put s.uuid s m)
put-IsSingle s m h alone = record {
  keyed = λ k t found. elim (lookup-put_cases s.uuid k s m found) [
    | inl (same, new) ↦ ap (λ x. x.uuid) new ∙ same
    | inr (other, old) ↦ h.keyed k t old
  ];
  one_current = λ i j k a b at_j at_k p q. elim (lookup-put_cases s.uuid j s m at_j) [
    | inl (same_j, new_j) ↦ elim (lookup-put_cases s.uuid k s m at_k) [
      | inl (same_k, new_k) ↦ sym same_j ∙ same_k
      | inr (other_k, old_k) ↦
          cc (alone k i b old_k other_k (subst (λ x. is_current_of i x ≡ true) new_j p), q)
    ]
    | inr (other_j, old_j) ↦ elim (lookup-put_cases s.uuid k s m at_k) [
      | inl (same_k, new_k) ↦
          cc (alone j i a old_j other_j (subst (λ x. is_current_of i x ≡ true) new_k q), p)
      | inr (other_k, old_k) ↦ h.one_current i j k a b old_j old_k p q
    ]
  ];
}

-- What a session of a cleared table was before.
record Was (m : Assoc String Session) (k : String) (s : Session) : Type 0 where
  before : Session
  stored : lookup k m ≡ some before
  same_uuid : s.uuid ≡ before.uuid
  still : (i : String) → is_current_of i s ≡ true → is_current_of i before ≡ true

Was-IsSingle :
    (m l : Assoc String Session)
    → ((k : String) (s : Session) → lookup k l ≡ some s → Was m k s)
    → IsSingle m
    → IsSingle l
Was-IsSingle m l was h = record {
  keyed = λ k s found. let w = was k s found in w.same_uuid ∙ h.keyed k w.before w.stored;
  one_current = λ i j k a b at_j at_k p q.
      let v = was j a at_j in
      let w = was k b at_k in
      h.one_current i j k v.before w.before v.stored w.stored (v.still i p) (w.still i q);
}

abbrev pub cleared_row : Bool → Session → Session
cleared_row b s = if b then record s { is_current = false } else s

cleared_row-current :
    (b : Bool) (i : String) (s : Session)
    → is_current_of i (cleared_row b s) ≡ true
    → is_current_of i s ≡ true
cleared_row-current true i s h = ground arith
cleared_row-current false i s h = h

cleared_row-uuid : (b : Bool) (s : Session) → (cleared_row b s).uuid ≡ s.uuid
cleared_row-uuid true s = refl
cleared_row-uuid false s = refl

-- The tables that `updateMany` leaves, whichever rows its query selects.
unfoldable pub clear_where : (String → Session → Bool) → Assoc String Session → Assoc String Session
clear_where p [] = []
clear_where p ((k, s) ∷ rows) = let rest = clear_where p rows in (k, cleared_row (p k s) s) ∷ rest

pub clear_where-lookup :
    (p : String → Session → Bool) (k : String) (s : Session) (m : Assoc String Session)
    → lookup k (clear_where p m) ≡ some s
    → (old : Session) × (lookup k m ≡ some old) × (s ≡ cleared_row (p k old) old)
unfolding clear_where lookup
clear_where-lookup p k s [] h = cc
clear_where-lookup p k s ((j, r) ∷ rows) h = elim (Bool-cases (j == k)) [
  | inl same ↦ (
    r,
    rw same refl,
    sym (some-eq-some (rw same at h))
        ∙ ap (λ x. cleared_row (p x r) r) ((string_Eq.beq_iff j k).0 same),
  )
  | inr other ↦
      let (old, found, eq) = clear_where-lookup p k s rows (rw other at h) in
      (old, rw other found, eq)
]

pub clear_current-clear_where :
    (i : String) (m : Assoc String Session)
    → clear_current i m ≡ clear_where (λ k s. is_current_of i s) m
unfolding clear_current clear_where
clear_current-clear_where i [] = refl
clear_current-clear_where i ((k, s) ∷ rows) =
    ap (λ l. (k, cleared_row (is_current_of i s) s) ∷ l) (clear_current-clear_where i rows)

pub clear_others-clear_where :
    (i id : String) (m : Assoc String Session)
    → clear_others i id m ≡ clear_where (λ k s. is_current_of i s && not (k == id)) m
unfolding clear_others clear_where
clear_others-clear_where i id [] = refl
clear_others-clear_where i id ((k, s) ∷ rows) =
    ap (λ l. (k, cleared_row (is_current_of i s && not (k == id)) s) ∷ l)
      (clear_others-clear_where i id rows)

pub clear_where-IsSingle :
    (p : String → Session → Bool) (m : Assoc String Session)
    → IsSingle m
    → IsSingle (clear_where p m)
clear_where-IsSingle p m h =
    Was-IsSingle m (clear_where p m)
      (λ k s found.
        let (old, stored, eq) = clear_where-lookup p k s m found in
        record {
          before = old;
          stored = stored;
          same_uuid = ap (λ x. x.uuid) eq ∙ cleared_row-uuid (p k old) old;
          still = λ i c.
              cleared_row-current (p k old) i old (subst (λ x. is_current_of i x ≡ true) eq c);
        })
      h

pub cleared_row-selected :
    (b : Bool) (i : String) (s : Session)
    → (is_current_of i s ≡ true → b ≡ true)
    → is_current_of i (cleared_row b s) ≡ false
cleared_row-selected true i s h = ground arith
cleared_row-selected false i s h = elim (Bool-cases (is_current_of i s)) [
  | inl on ↦ cc (h on)
  | inr off ↦ off
]
