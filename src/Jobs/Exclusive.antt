-- ===== src/Jobs/Exclusive.antt =====
-- What holds of the jobs and the workers after any sequence of actions on an empty queue.
use acadid.Common.{
  ◌≤◌, max, String, some, List, [], ◌∷◌, ◌≡◌, ap, sym, subst, ◌∙◌, string_Eq, some-eq-some,
}
use acadid.Common.Assoc.{lookup, lookup-nil}
use acadid.Jobs.Types.{Job}
use acadid.Jobs.System.{System, Action, act, act_all, empty, AllFresh}
use acadid.Jobs.Changes.{Found, Change, act-Change}
use acadid.Jobs.Consistent.{Held, Held-same, IsConsistent, Change-IsConsistent}

-- A property that every step from a consistent state keeps holds after any actions.
pub act_all_induction :
    (P : System → Type 0)
    → ((s s' : System) → IsConsistent s → Change s s' → P s → P s')
    → (actions : List Action) (s : System) → AllFresh actions s
    → IsConsistent s
    → P s
    → IsConsistent (act_all actions s) × P (act_all actions s)
unfolding act_all
act_all_induction P keep [] s fresh c h = (c, h)
act_all_induction P keep (a ∷ actions) s (now, then) c h =
    let change : Change s (act a s) = act-Change s a now c.table in
    act_all_induction P keep actions (act a s) then (Change-IsConsistent s (act a s) c change)
      (keep s (act a s) c change h)

empty-IsConsistent : IsConsistent empty
empty-IsConsistent = record {
  table = λ k v m. elim m [ ];
  keyed = λ id row h. cc (lookup-nil {V = Job} id);
  within = λ id row h. cc (lookup-nil {V = Job} id);
  held = λ worker job h. cc (lookup-nil {V = Job} worker);
}

pub act_all-IsConsistent :
    (actions : List Action) → AllFresh actions empty → IsConsistent (act_all actions empty)
act_all-IsConsistent actions fresh =
    (act_all_induction (λ s. Unit) (λ s s' c change h. tt) actions empty fresh empty-IsConsistent
      tt).0

-- Whatever workers and operators do from an empty queue and in whatever order, where a retry of a
-- failed job writes only while the row is failed and as the retry read it: workers that process the
-- same job are the same worker, and the row of the job is running, is locked by that worker and counts the
-- attempts of its claim.
pub workers-exclusive :
    (actions : List Action) (v w : String) (a b : Job)
    → AllFresh actions empty
    → lookup v (act_all actions empty).active ≡ some a
    → lookup w (act_all actions empty).active ≡ some b
    → a.uuid ≡ b.uuid
    → (v ≡ w) × Held (act_all actions empty) v a
workers-exclusive actions v w a b fresh ha hb same =
    let c : IsConsistent (act_all actions empty) = act_all-IsConsistent actions fresh in
    let first : Held (act_all actions empty) v a = c.held v a ha in
    let second : Held (act_all actions empty) w b = c.held w b hb in
    (
      (let e : first.row ≡ second.row =
            Held-same _ w b first.row second
              (subst (λ k. Found (act_all actions empty) k first.row) same first.here) in
          some-eq-some (sym first.locked ∙ ap (λ r. r.locked_by) e ∙ second.locked)),
      first,
    )

-- After any actions on an empty queue, where a retry of a failed job writes only while the row is
-- failed and as the retry read it, a job has been tried at most as often as its row allows, or once.
pub attempts-bounded :
    (actions : List Action) (id : String) (row : Job)
    → AllFresh actions empty
    → Found (act_all actions empty) id row
    → row.attempts ≤ max 1 row.max_attempts
attempts-bounded actions id row fresh h =
    ((act_all-IsConsistent actions fresh).within id row h).bound
