-- ===== src/Scheduler/Due.antt =====
-- The due times lie in the window, in order, and are no more than the policy allows.
use backup_restore.Prelude.{
  ℕ, zero, suc, ◌-◌, ◌≤◌, ◌≡◌, refl, true, false, List, [], ◌∷◌, arith, length, drop, All, All-drop,
  All-map, ap, subst, Bool-cases, inl, inr, length-drop,
}
use backup_restore.Prelude.Int.{ℤ, ltb_ℤ, leb_ℤ, ◌-ℤ◌, ◌≤ℤ◌}
use backup_restore.Api.{Time, Duration, MissedRunPolicy}
use backup_restore.Scheduler.Defs.{
  collect_due, choose_due, start_from, due_times, only_last, take_last, if_recent, last_or,
  catch_up, minute,
}

-- What the cron library promises of the next activation: it is later than the given time.
abbrev pub Advances : (Time → Time) → Type 0
Advances next = (t : Time) → ltb_ℤ t (next t) ≡ true

-- After `start`, and not after `now`.
abbrev pub IsWithin : Time → Time → Time → Type 0
IsWithin start now t = (ltb_ℤ start t ≡ true) × (t ≤ℤ now)

-- Each time is later than the one before it.
abbrev pub Ascends : Time → List Time → Type 0
Ascends t [] = Unit
Ascends t (u ∷ ts) = (ltb_ℤ t u ≡ true) × Ascends u ts

module _ (next : Time → Time) (now : Time) where
  collect_due_over :
      (rounds : ℕ) (cursor : Time)
      → ltb_ℤ now (next cursor) ≡ true
      → collect_due next now (suc rounds) cursor ≡ []
  unfolding collect_due
  collect_due_over rounds cursor over = rw over

  collect_due_more :
      (rounds : ℕ) (cursor : Time)
      → ltb_ℤ now (next cursor) ≡ false
      → collect_due next now (suc rounds) cursor
        ≡ next cursor ∷ collect_due next now rounds (next cursor)
  unfolding collect_due
  collect_due_more rounds cursor more = rw more

  -- Each time is the activation after the one before it.
  abbrev pub IsChain : Time → List Time → Type 0
  IsChain t [] = Unit
  IsChain t (u ∷ ts) = (u ≡ next t) × IsChain u ts

  collect_due_of_chain :
      (rounds : ℕ) (cursor : Time) (ts : List Time)
      → IsChain cursor ts
      → All (λ t. t ≤ℤ now) ts
      → ltb_ℤ now (next (last_or cursor ts)) ≡ true
      → length ts ≤ rounds
      → collect_due next now rounds cursor ≡ ts
  collect_due_of_chain zero cursor [] chain past over few = refl_nil
    where
      refl_nil : collect_due next now zero cursor ≡ []
      refl_nil = unfold collect_due in refl
  collect_due_of_chain (suc rounds) cursor [] chain past over few =
      collect_due_over rounds cursor over
  collect_due_of_chain zero cursor (t ∷ ts) chain past over few = absurd (omega arith)
  collect_due_of_chain (suc rounds) cursor (t ∷ ts) (e, chain) (p, past) over few =
      let more : ltb_ℤ now (next cursor) ≡ false =
        subst (λ u. ltb_ℤ now u ≡ false) e (ground arith) in
      cc (
        collect_due_more rounds cursor more,
        e,
        collect_due_of_chain rounds t ts chain past over (omega arith),
      )

  module _ (advances : Advances next) where
    collect_due-Ascends :
        (rounds : ℕ) (cursor : Time) → Ascends cursor (collect_due next now rounds cursor)
    collect_due-Ascends zero cursor = unfold collect_due in tt
    collect_due-Ascends (suc rounds) cursor = elim (Bool-cases (ltb_ℤ now (next cursor))) [
      | inl over ↦ rw (collect_due_over rounds cursor over) tt
      | inr more ↦
          rw (collect_due_more rounds cursor more)
            (advances cursor, collect_due-Ascends rounds (next cursor))
    ]

    IsWithin-next : (cursor t : Time) → IsWithin (next cursor) now t → IsWithin cursor now t
    IsWithin-next cursor t (later, past) = (ground (arith, advances cursor), past)

    collect_due-IsWithin :
        (rounds : ℕ) (cursor : Time)
        → All (IsWithin cursor now) (collect_due next now rounds cursor)
    collect_due-IsWithin zero cursor = unfold collect_due in tt
    collect_due-IsWithin (suc rounds) cursor = elim (Bool-cases (ltb_ℤ now (next cursor))) [
      | inl over ↦ rw (collect_due_over rounds cursor over) tt
      | inr more ↦ rw (collect_due_more rounds cursor more) (
        (advances cursor, ground arith),
        All-map (IsWithin (next cursor) now) (IsWithin cursor now) (IsWithin-next cursor) _
            (collect_due-IsWithin rounds (next cursor)),
      )
    ]

Ascends-from : (s u : Time) (ts : List Time) → ltb_ℤ s u ≡ true → Ascends u ts → Ascends s ts
Ascends-from s u [] h a = tt
Ascends-from s u (t ∷ ts) h (e, a) = (ground arith, a)

Ascends-drop : (k : ℕ) (s : Time) (ts : List Time) → Ascends s ts → Ascends s (drop k ts)
Ascends-drop zero s ts a = a
Ascends-drop (suc k) s [] a = tt
Ascends-drop (suc k) s (t ∷ ts) (e, a) = Ascends-drop k s ts (Ascends-from s t ts e a)

last_or-All : (P : Time → Type 0) (t : Time) (ts : List Time) → P t → All P ts → P (last_or t ts)
last_or-All P t [] p h = p
last_or-All P t (u ∷ ts) p (q, h) = last_or-All P u ts q h

only_last-All : (P : Time → Type 0) (ts : List Time) → All P ts → All P (only_last ts)
only_last-All P [] h = tt
only_last-All P (t ∷ ts) (p, h) = (last_or-All P t ts p h, tt)

-- The facts of a list of due times: in the window, each later than the one before, and few.
abbrev pub AreDue : Time → Time → ℕ → List Time → Type 0
AreDue start now most ts = All (IsWithin start now) ts × Ascends start ts × (length ts ≤ most)

only_last-AreDue :
    (start now : Time) (most : ℕ) (ts : List Time)
    → 1 ≤ most
    → All (IsWithin start now) ts
    → AreDue start now most (only_last ts)
only_last-AreDue start now most [] m h = (tt, tt, omega arith)
only_last-AreDue start now most (t ∷ ts) m h =
    let w = only_last-All (IsWithin start now) (t ∷ ts) h in (w, (w.0.0, tt), m)

if_recent-AreDue :
    (start now : Time) (most : ℕ) (ts : List Time)
    → AreDue start now most ts
    → AreDue start now most (if_recent now ts)
if_recent-AreDue start now most [] h = h
if_recent-AreDue start now most (t ∷ ts) ((w, ws), (a, as'), l) =
    elim (Bool-cases (leb_ℤ (now -ℤ t) minute)) [
      | inl e ↦ rw e ((w, tt), (a, tt), ground arith)
      | inr e ↦ rw e (tt, tt, omega arith)
    ]

take_last-AreDue :
    (start now : Time) (most : ℕ) (ts : List Time)
    → All (IsWithin start now) ts
    → Ascends start ts
    → AreDue start now most (take_last most ts)
take_last-AreDue start now most ts w a = (
  All-drop (IsWithin start now) (length ts - most) ts w,
  Ascends-drop (length ts - most) start ts a,
  omega (arith, length-drop (length ts - most) ts),
)

choose_due-AreDue :
    (policy : MissedRunPolicy) (start now : Time) (most : ℕ) (ts : List Time)
    → 1 ≤ most
    → All (IsWithin start now) ts
    → Ascends start ts
    → AreDue start now most (choose_due policy now most ts)
unfolding choose_due
choose_due-AreDue MissedRunPolicy.skip start now most ts m w a =
    if_recent-AreDue start now most (only_last ts) (only_last-AreDue start now most ts m w)
choose_due-AreDue MissedRunPolicy.run_all start now most ts m w a =
    take_last-AreDue start now most ts w a
choose_due-AreDue _ start now most ts m w a = only_last-AreDue start now most ts m w

-- If the schedule advances, the due times lie after the start of the search and not after now,
-- each is later than the one before, and they are no more than MaxCatchUpRuns (or one, if that
-- is less).
pub due_times-AreDue :
    (next : Time → Time)
    → Advances next
    → (last now : Time) (deadline : Duration) (policy : MissedRunPolicy) (most : ℤ)
    → AreDue
        (start_from last now deadline)
        now
        (catch_up most)
        (due_times next last now deadline policy most)
unfolding due_times
due_times-AreDue next advances last now deadline policy most =
    choose_due-AreDue policy (start_from last now deadline) now (catch_up most) _ (ground arith)
      (collect_due-IsWithin next now advances 1000 (start_from last now deadline))
      (collect_due-Ascends next now advances 1000 (start_from last now deadline))

-- Where the activations from the start of the search until now are the list ts, 1000 at most, the
-- policy chooses from exactly these: none is missed and none is added.
due_times_of_chain :
    (next : Time → Time) (last now : Time) (deadline : Duration) (policy : MissedRunPolicy)
    (most : ℤ) (ts : List Time)
    → IsChain next now (start_from last now deadline) ts
    → All (λ t. t ≤ℤ now) ts
    → ltb_ℤ now (next (last_or (start_from last now deadline) ts)) ≡ true
    → length ts ≤ 1000
    → due_times next last now deadline policy most ≡ choose_due policy now (catch_up most) ts
unfolding due_times
due_times_of_chain next last now deadline policy most ts chain past over few =
    ap (choose_due policy now (catch_up most))
      (collect_due_of_chain next now 1000 (start_from last now deadline) ts chain past over few)
