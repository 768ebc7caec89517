-- ===== src/Task/Laws.antt =====
-- Runs of a task never overlap, and a task that is closed is at rest.
use ppanel_node.Base.{
  ℕ, Option, none, some, Bool, true, ◌||◌, ◌&&◌, not, ◌≡◌, ◌≢◌, ◌⊎◌, refl, sym, ◌∙◌, inl, inr,
  Bool-cases, leb,
}
use ppanel_node.Base.Eq.{◌==◌, nat_eq}
use ppanel_node.Base.Map.{Map, lookup, insert, lookup-insert}
use ppanel_node.Task.{
  Phase, waiting, executing, exited, Loop, Task, fresh_loop, start_idle, start, over_limit, cancel,
  close_current, close_done, Step, started, fired, returned, overran, left, closing, closed, Reach,
  here, next,
}

-- A goroutine that has not gone is the current one.
abbrev pub IsSingle : Option ℕ → Map ℕ Loop → Type 0
IsSingle current loops =
    (g : ℕ) (l : Loop) → lookup g loops ≡ some l → l.phase ≢ exited → current ≡ some g

insert-IsSingle :
    (current : Option ℕ) (loops : Map ℕ Loop) (g : ℕ) (new : Loop)
    → (new.phase ≢ exited → current ≡ some g)
    → IsSingle current loops
    → IsSingle current (insert g new loops)
insert-IsSingle current loops g new ok_ single h l found live = elim (Bool-cases (g == h)) [
  | inl same ↦
      let e : g ≡ h = (nat_eq.beq_iff g h).0 same in
      let it : some new ≡ some l = rw (lookup-insert g h new loops, same) at found in
      let it' : new ≡ l = cc it in ok_ (rw it' live) ∙ rw e refl
  | inr other ↦
      let old : lookup h loops ≡ some l = rw (lookup-insert g h new loops, other) at found in
      single h l old live
]

start_idle-IsSingle :
    (t : Task) (first : Bool) (current : Option ℕ)
    → t.current ≡ current
    → IsSingle t.current t.loops
    → IsSingle (start_idle t first current).0.current (start_idle t first current).0.loops
start_idle-IsSingle t first (some g) e single = single
start_idle-IsSingle t first none e single =
    elim (Bool-cases (leb t.interval 0 || not t.has_execute)) [
      | inl bad ↦ rw bad single
      | inr good ↦ rw good (
          insert-IsSingle (some t.made) t.loops t.made (fresh_loop first) (λ live. refl)
            (λ g l found live.
              let none_ : none ≡ some g = sym e ∙ single g l found live in cc none_))
    ]

close_current-IsSingle :
    (t : Task) (g : ℕ) (l : Loop) (current : Option ℕ)
    → t.current ≡ current
    → lookup g t.loops ≡ some l
    → l.phase ≡ exited
    → IsSingle t.current t.loops
    → IsSingle (close_current t g current).current (close_current t g current).loops
close_current-IsSingle t g l none e found gone single = single
close_current-IsSingle t g l (some h) e found gone single = elim (Bool-cases (h == g)) [
  | inl same ↦ rw same (λ g' l' found' live.
      let current : some h ≡ some g' = sym e ∙ single g' l' found' live in
      let hg : h ≡ g = (nat_eq.beq_iff h g).0 same in
      let gg : g ≡ g' = sym hg ∙ (cc current) in
      let twice : some l ≡ some l' = sym found ∙ (rw gg found') in
      let ll : l ≡ l' = cc twice in absurd (live (rw (← ll) gone)))
  | inr other ↦ rw other single
]

over_limit-IsSingle :
    (t : Task) (l : Loop)
    → IsSingle t.current t.loops
    → IsSingle (over_limit t l).current (over_limit t l).loops
unfolding over_limit
over_limit-IsSingle t l single = elim (Bool-cases (not l.cancelled && t.has_reload)) [
  | inl signal ↦ rw signal single
  | inr quiet ↦ rw quiet single
]

ne_exited : (p : Phase) → (p ≡ waiting) ⊎ (p ≡ executing) → p ≢ exited
ne_exited p (inl w) e = let clash : waiting ≡ exited = sym w ∙ e in cc clash
ne_exited p (inr x) e = let clash : executing ≡ exited = sym x ∙ e in cc clash

Step-IsSingle : {t u : Task} → Step t u → IsSingle t.current t.loops → IsSingle u.current u.loops
unfolding start cancel close_done
Step-IsSingle (started t first) single = start_idle-IsSingle t first t.current refl single
Step-IsSingle (fired t g l found w) single =
    insert-IsSingle t.current t.loops g (record l { phase = executing })
      (λ live. single g l found (ne_exited l.phase (inl w))) single
Step-IsSingle (returned t g l found x) single =
    insert-IsSingle t.current t.loops g (record l { phase = waiting })
      (λ live. single g l found (ne_exited l.phase (inr x))) single
Step-IsSingle (overran t g l found x) single = over_limit-IsSingle t l single
Step-IsSingle (left t g l found w c) single =
    insert-IsSingle t.current t.loops g (record l { phase = exited }) (λ live. absurd (live refl))
      single
Step-IsSingle (closing t g l found current) single =
    insert-IsSingle t.current t.loops g (record l { cancelled = true }) (λ live. current) single
Step-IsSingle (closed t g l found gone) single =
    close_current-IsSingle t g l t.current refl found gone single

pub Reach-IsSingle :
    {t u : Task} → IsSingle t.current t.loops → Reach t u → IsSingle u.current u.loops
Reach-IsSingle single here = single
Reach-IsSingle single (next r s) = Step-IsSingle s (Reach-IsSingle single r)

-- A task that was never started.
abbrev pub IsNew : Task → Type 0
IsNew t = (g : ℕ) → lookup g t.loops ≡ none

IsNew-IsSingle : (t : Task) → IsNew t → IsSingle t.current t.loops
IsNew-IsSingle t new g l found live = let clash : none ≡ some l = sym (new g) ∙ found in cc clash

-- Runs of a task never overlap: however starts, timers, slow runs and concurrent calls of `Close`
-- interleave, no two goroutines of the task are in a run at once.
pub Reach-one_run :
    (t u : Task) (g h : ℕ) (l k : Loop)
    → IsNew t
    → Reach t u
    → lookup g u.loops ≡ some l
    → lookup h u.loops ≡ some k
    → l.phase ≡ executing
    → k.phase ≡ executing
    → g ≡ h
Reach-one_run t u g h l k new r at_g at_h run_l run_k =
    let single = Reach-IsSingle (IsNew-IsSingle t new) r in
    let here_ = single g l at_g (ne_exited l.phase (inr run_l)) in
    let there = single h k at_h (ne_exited k.phase (inr run_k)) in
    let same : some g ≡ some h = sym here_ ∙ there in cc same

exited_or : (p : Phase) → (p ≡ exited) ⊎ (p ≢ exited)
exited_or waiting = inr (λ e. cc e)
exited_or executing = inr (λ e. cc e)
exited_or exited = inl refl

-- A task that can be started again is at rest: when `Close` has cleared the task, all goroutines that it
-- ever had are gone.
pub Reach-closed :
    (t u : Task) (g : ℕ) (l : Loop)
    → IsNew t
    → Reach t u
    → u.current ≡ none
    → lookup g u.loops ≡ some l
    → l.phase ≡ exited
Reach-closed t u g l new r idle found = elim (exited_or l.phase) [
  | inl gone ↦ gone
  | inr live ↦
      let clash : none ≡ some g =
        sym idle ∙ Reach-IsSingle (IsNew-IsSingle t new) r g l found live in
      cc clash
]
