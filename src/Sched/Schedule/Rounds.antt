-- ===== src/Sched/Schedule/Rounds.antt =====
-- kernel/sched/sched.c, the `while (1)` of `schedule`: when it ends, and what it picks.
use echo_os.Base.{
  ℕ, suc, ◌+◌, ◌/◌, false, List, [], ◌∷◌, Option, none, some, ◌≡◌, refl, arith, ◌⊎◌, inl, inr, All,
  Bool-cases, done, ap, ◌∙◌, All-at,
}
use mathlib.Core.Option
use echo_os.Base.Int.{ℤ, pos, eqb_ℤ}
use echo_os.Sched.Task.{Task, Sched}
use echo_os.Sched.Schedule.{pick, select, schedule, recharge, recharge_all, rouse, rouse_all}
use echo_os.Sched.Schedule.Pick.{Picked, pick_lem}

-- A task has a time slice from 0 on and a priority above 0.
abbrev pub HasSlice : Option Task → Type 0
HasSlice none = Unit
HasSlice (some t) = (n : ℕ) × (p : ℕ) × (t.counter ≡ pos n) × (t.priority ≡ pos (suc p))

rouse-HasSlice : (t : Option Task) → HasSlice t → HasSlice (Option.map rouse t)
rouse-HasSlice none h = tt
rouse-HasSlice (some t) (n, p, e, e') = (n, p, ground arith, ground arith)

pub rouse_all-HasSlice : (ts : List (Option Task)) → All HasSlice ts → All HasSlice (rouse_all ts)
rouse_all-HasSlice [] h = tt
rouse_all-HasSlice (t ∷ ts) h = (rouse-HasSlice t h.0, rouse_all-HasSlice ts h.1)

recharge_parts :
    (t : Task) (n p : ℕ)
    → t.counter ≡ pos n
    → t.priority ≡ pos (suc p)
    → (recharge t).counter ≡ pos (n / 2 + suc p)
recharge_parts t n p e e' = rw (e, e') (ground arith)

pub recharge_all-HasSlice :
    (ts : List (Option Task)) → All HasSlice ts → All HasSlice (recharge_all ts)
recharge_all-HasSlice [] h = tt
recharge_all-HasSlice (none ∷ ts) h = (tt, recharge_all-HasSlice ts h.1)
recharge_all-HasSlice (some t ∷ ts) ((n, p, e, e'), h) =
    ((n / 2 + suc p, p, recharge_parts t n p e e', e'), recharge_all-HasSlice ts h)

-- After a recharge no time slice is 0.
abbrev IsCharged : Option Task → Type 0
IsCharged none = Unit
IsCharged (some t) = (m : ℕ) × (t.counter ≡ pos (suc m))

recharge_all-IsCharged :
    (ts : List (Option Task)) → All HasSlice ts → All IsCharged (recharge_all ts)
recharge_all-IsCharged [] h = tt
recharge_all-IsCharged (none ∷ ts) h = (tt, recharge_all-IsCharged ts h.1)
recharge_all-IsCharged (some t ∷ ts) ((n, p, e, e'), h) =
    ((n / 2 + p, recharge_parts t n p e e' ∙ ap pos (omega arith)), recharge_all-IsCharged ts h)

-- The slot that is switched to, with a counter that is not 0.
abbrev pub Chosen : List (Option Task) → ℕ → Type 0
Chosen ts next = (c : ℤ) × (eqb_ℤ c (pos 0) ≡ false) × Picked 1 ts (c, next)

charged_not_zero :
    (ts : List (Option Task)) (i next : ℕ) (c : ℤ)
    → All IsCharged ts
    → Picked i ts (c, next)
    → eqb_ℤ c (pos 0) ≡ false
charged_not_zero ts i next c h (all, inl (e, e')) = rw e refl
charged_not_zero ts i next c h (all, inr (k, e, w)) =
    let (m, e') = All-at IsCharged ts k none (some w.task) h tt w.there in ground (arith, w.counts)

select_charged :
    (fuel : ℕ) (ts : List (Option Task))
    → All IsCharged ts
    → (next : ℕ) × (select (suc fuel) ts ≡ done (ts, next)) × Chosen ts next
unfolding select
select_charged fuel ts h =
    let picked = pick_lem 1 ts in
    let ne = charged_not_zero ts 1 (pick 1 ts).1 (pick 1 ts).0 h picked in
    ((pick 1 ts).1, rw ne refl, ((pick 1 ts).0, ne, picked))

-- The slots that `select` leaves: those it was given, or the same recharged once.
select_ends :
    (fuel : ℕ) (ts : List (Option Task))
    → All HasSlice ts
    → (ts' : List (Option Task)) × (next : ℕ) × (select (suc (suc fuel)) ts ≡ done (ts', next))
      × Chosen ts' next
      × ((ts' ≡ ts) ⊎ (ts' ≡ recharge_all ts))
unfolding select
select_ends fuel ts h = elim (Bool-cases (eqb_ℤ (pick 1 ts).0 (pos 0))) [
  | inr ne ↦ (ts, (pick 1 ts).1, rw ne refl, ((pick 1 ts).0, ne, pick_lem 1 ts), inl refl)
  | inl zero_left ↦
      let (next, ran, chosen) =
        select_charged fuel (recharge_all ts) (recharge_all-IsCharged ts h) in
      (recharge_all ts, next, rw zero_left ran, chosen, inr refl)
]

-- With a time slice from 0 on and a priority above 0 in every slot, `schedule` ends within two
-- rounds. It leaves the slots roused, recharged at most once, and switches to a slot whose task can
-- run with the greatest counter, or to slot 0 where none can run.
pub schedule_total :
    (fuel : ℕ) (s : Sched)
    → All HasSlice s.rest
    → (s' : Sched) × (next : ℕ) × (schedule (suc (suc fuel)) s ≡ done (s', next))
      × Chosen s'.rest next
      × ((s'.rest ≡ rouse_all s.rest) ⊎ (s'.rest ≡ recharge_all (rouse_all s.rest)))
      × (s'.idle ≡ s.idle)
      × (s'.current ≡ s.current)
unfolding schedule
schedule_total fuel s h =
    let (ts, next, ran, chosen, how) =
      select_ends fuel (rouse_all s.rest) (rouse_all-HasSlice s.rest h) in
    (record s { rest = ts }, next, rw ran refl, chosen, how, refl, refl)
