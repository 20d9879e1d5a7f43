-- ===== src/Retrieve/Complete.antt =====
-- retrieve.c: `dep_complete` on the graph of the dependents.
use epri_client.Prelude.{
  ℕ, zero, suc, ◌-◌, ◌<◌, ◌≡◌, refl, sym, ◌∙◌, ap, arith, Bool, true, false, Option, none, some,
  List, [], ◌∷◌, ◌++◌, length, ◌≤◌, append_assoc, ==_iff, ◌==◌, Bool-cases, inl, inr, not, ◌&&◌,
  ◌⊎◌,
}
use mathlib.Core.Path.{subst}
use epri_client.Prelude.Masks.{bit_and_disjoint}
use epri_client.LinkedList.Sets.{Distinct}
use epri_client.LinkedList.{find_by_data, insert_unique}
use epri_client.Schedule.{clear_bits}
use epri_client.Retrieve.{Stub, Store, Env, completion, emit, set_complete, set_reqs}
use epri_client.Retrieve.Graph.{
  enter_req, enter_req_as, links_behind, complete_one, complete_deps, mark_complete, dep_complete,
}
use epri_client.Retrieve.Reset.{deps_of, IsAcyclic}
use epri_client.Retrieve.Progress.{
  IsProgress, IsStep, put_stub-IsProgress, then-IsProgress, unchanged, emitted, same-IsStep,
  drop_old_none, NoUpdate,
}

set_true-IsProgress : (st : Store) (s : ℕ) → IsProgress st (λ t. t ≡ s) (set_complete st s true)
set_true-IsProgress st s =
    let step =
      put_stub-IsProgress st s (record (st.stub s) { complete = true })
        (record {
          deps = refl;
          list = refl;
          info = refl;
          flag = refl;
          flags = λ m h. h;
          stays = λ h. refl;
        }) in
    record {
      same_deps = step.same_deps;
      same_list = step.same_list;
      same_info = step.same_info;
      same_flag = step.same_flag;
      fewer_flags = step.fewer_flags;
      stays = step.stays;
      gained = λ t h. ground arith;
    }

-- The completion routines leave the stubs as they are, but may clear flags and complete stubs.
abbrev pub IsQuiet : Env → Type 0
IsQuiet env = (st : Store) (s : ℕ) → IsProgress st (λ t. ⊥) (env.on_complete st s)

mark_complete-IsProgress :
    (env : Env) (st : Store) (s : ℕ)
    → IsQuiet env
    → IsProgress st (λ t. t ≡ s) (mark_complete env st s)
unfolding mark_complete
mark_complete-IsProgress env st s quiet =
    let b = st.stub s in
    let called = emit st (completion s) in
    elim (Bool-cases (b.has_completion && not b.complete)) [
      | inl e ↦ rw e (
          then-IsProgress (λ t h. inr h)
            (then-IsProgress (λ t h. absurd h) (emitted (completion s) (unchanged st (λ t h. h)))
              (quiet called s))
            (set_true-IsProgress (env.on_complete called s) s))
      | inr e ↦ rw e (set_true-IsProgress st s)
    ]

-- The dependents that a completed requirement makes complete: a dependent that is no list, all of
-- whose flags go with the requirement's.
abbrev pub IsFreed : Store → ℕ → ℕ → Type 0
IsFreed st s d = ((st.stub d).info ≡ none) × (clear_bits (st.stub d).flags (st.stub s).flag ≡ 0)

abbrev Completes : (Store → ℕ → Option Store) → Store → ℕ → Type 0
Completes recurse x d = (y : Store) × (recurse x d ≡ some y) × IsProgress x (λ t. t ≡ d) y

clear-IsStep :
    (b v : Stub) (flag : ℕ)
    → v.deps ≡ b.deps
    → v.list ≡ b.list
    → v.info ≡ b.info
    → v.flag ≡ b.flag
    → v.flags ≡ clear_bits b.flags flag
    → v.complete ≡ b.complete
    → IsStep b v
unfolding clear_bits
clear-IsStep b v flag e₁ l e₂ e₃ e₄ e₅ = record {
  deps = e₁;
  list = l;
  info = e₂;
  flag = e₃;
  flags = λ m h. rw e₄ (bit_and_disjoint b.flags m (0xffff_ffff - flag) h);
  stays = λ h. rw e₅ h;
}

enter_req_as-IsProgress :
    (env : Env) (st : Store) (s d : ℕ) (info : Option ℕ)
    → IsProgress st (λ t. ⊥) (enter_req_as env st s d info).0
unfolding enter_req_as
enter_req_as-IsProgress env st s d none =
    let entered = set_reqs st d (insert_unique (st.stub d).reqs s) in
    then-IsProgress (λ t h. absurd h)
      (put_stub-IsProgress st d _ (same-IsStep (st.stub d) _ refl refl refl refl refl refl))
      (put_stub-IsProgress entered d _
        (clear-IsStep (entered.stub d) _ (st.stub s).flag refl refl refl refl same_flags refl))
  where
    same_flags :
        clear_bits (st.stub d).flags (st.stub s).flag
        ≡ clear_bits
            ((set_reqs st d (insert_unique (st.stub d).reqs s)).stub d).flags
            (st.stub s).flag
    same_flags = ground arith
enter_req_as-IsProgress env st s d (some info) =
    put_stub-IsProgress st d _ (same-IsStep (st.stub d) _ refl refl refl refl refl refl)

-- One dependent: it is made complete, or the completion goes on without it.
complete_one-IsProgress :
    (recurse : Store → ℕ → Option Store) (d : ℕ) (st x : Store) (whole : Bool) {G : ℕ → Type 0}
    → NoUpdate x
    → IsProgress st (λ t. ⊥) x
    → Completes recurse x d
    → ((t : ℕ) → G t → (t ≡ d) × (whole ≡ true))
    → (y : Store) × (complete_one recurse d (x, whole) ≡ some y) × IsProgress st G y
unfolding complete_one
complete_one-IsProgress recurse d st x false none_old entered rec gains =
    (x, refl, then-IsProgress (λ t g. cc ((gains t g).1)) entered (unchanged x (λ t h. h)))
complete_one-IsProgress recurse d st x true none_old entered (y, run, done) gains = (
  y,
  rw (drop_old_none x d none_old) run,
  then-IsProgress (λ t g. inr (gains t g).0) entered done,
)

enter_whole :
    (env : Env) (st : Store) (s d : ℕ) (info : Option ℕ)
    → info ≡ none
    → clear_bits (st.stub d).flags (st.stub s).flag ≡ 0
    → (enter_req_as env st s d info).1 ≡ true
unfolding enter_req_as
enter_whole env st s d none e h = rw h refl
enter_whole env st s d (some info) e h = cc

enter_req-IsProgress :
    (env : Env) (st : Store) (s d : ℕ) → IsProgress st (λ t. ⊥) (enter_req env st s d).0
unfolding enter_req
enter_req-IsProgress env st s d = enter_req_as-IsProgress env st s d (st.stub d).info

enter_gains :
    (env : Env) (st : Store) (s d t : ℕ)
    → (t ≡ d) × IsFreed st s t
    → (t ≡ d) × ((enter_req env st s d).1 ≡ true)
unfolding enter_req
enter_gains env st s d t (e, (no_list, clear)) = (
  e,
  enter_whole env st s d (st.stub d).info (subst (λ x. (st.stub x).info ≡ none) e no_list)
      (subst (λ x. clear_bits (st.stub x).flags (st.stub s).flag ≡ 0) e clear),
)

-- What is to be gained at the head is gained there, and the rest is still to be gained behind it.
head_or_rest :
    (st y : Store) (s d : ℕ) (ds : List ℕ) (t : ℕ) {G : ℕ → Type 0}
    → IsProgress st G y
    → (find_by_data (d ∷ ds) t ≡ true) × IsFreed st s t
    → ((t ≡ d) × IsFreed st s t) ⊎ ((find_by_data ds t ≡ true) × IsFreed y s t)
unfolding find_by_data clear_bits
head_or_rest st y s d ds t p (found, (no_list, clear)) = elim (Bool-cases (d == t)) [
  | inl e ↦ inl (ground arith, (no_list, clear))
  | inr e ↦
      inr (ground arith, (p.same_info t ∙ no_list, rw (p.same_flag s) (p.fewer_flags t _ clear)))
]

-- The link behind `d`, in a list without a stub twice.
found_middle : (before rest : List ℕ) (d : ℕ) → find_by_data (before ++ d ∷ rest) d ≡ true
unfolding find_by_data
found_middle [] rest d = ground arith
found_middle (b ∷ before) rest d = ground (arith, found_middle before rest d)

links_behind-middle :
    (before rest : List ℕ) (d : ℕ)
    → Distinct (before ++ d ∷ rest)
    → links_behind (before ++ d ∷ rest) d ≡ some rest
unfolding links_behind
links_behind-middle [] rest d h = ground arith
links_behind-middle (b ∷ before) rest d (fresh, h) = elim (Bool-cases (b == d)) [
  | inl e ↦
      let same : b ≡ d = (==_iff b d).0 e in
      let found = found_middle before rest d in
      let absent = subst (λ v. find_by_data (before ++ d ∷ rest) v ≡ false) same fresh in cc
  | inr e ↦ rw e (links_behind-middle before rest d h)
]

-- What holds of the graph of the stubs all along: no cycle, no dependent twice, no update on the way,
-- and no more dependents of a stub than the rounds.
pub record IsGraph (st : Store) (rank : ℕ → ℕ) (rounds : ℕ) : Type 0 where
  pub acyclic : IsAcyclic (deps_of st) rank
  pub distinct : (t : ℕ) → Distinct (deps_of st t)
  pub few : (t : ℕ) → length (deps_of st t) ≤ rounds
  pub no_update : NoUpdate st

kept-IsGraph :
    {st x : Store} {G : ℕ → Type 0} {rank : ℕ → ℕ} {rounds : ℕ}
    → IsProgress st G x
    → IsGraph st rank rounds
    → IsGraph x rank rounds
kept-IsGraph {rounds = rounds} p g = record {
  acyclic = λ t d h. g.acyclic t d (subst (λ l. find_by_data l d ≡ true) (p.same_deps t) h);
  distinct = λ t. subst Distinct (sym (p.same_deps t)) (g.distinct t);
  few = λ t. subst (λ (l : List ℕ). length l ≤ rounds) (sym (p.same_deps t)) (g.few t);
  no_update = λ t. p.same_list t ∙ g.no_update t;
}

complete_deps-IsProgress :
    (left : ℕ) (recurse : Store → ℕ → Option Store) (env : Env) (rank : ℕ → ℕ) (rounds s : ℕ)
    (before ds : List ℕ) (st : Store)
    → ((x : Store) (d : ℕ) → IsGraph x rank rounds → rank d < rank s → Completes recurse x d)
    → deps_of st s ≡ before ++ ds
    → length ds ≤ left
    → IsGraph st rank rounds
    → (st' : Store) × (complete_deps left recurse env s ds st ≡ some st')
      × IsProgress st (λ d. (find_by_data ds d ≡ true) × IsFreed st s d) st'
unfolding complete_deps find_by_data
complete_deps-IsProgress left recurse env rank rounds s before [] st rec e fits g =
    (st, refl, unchanged st (λ t h. cc (h.0)))
complete_deps-IsProgress zero recurse env rank rounds s before (d ∷ ds) st rec e fits g =
    absurd (omega arith)
complete_deps-IsProgress (suc left) recurse env rank rounds s before (d ∷ ds) st rec e fits g =
    let entered = enter_req-IsProgress env st s d in
    let g' = kept-IsGraph entered g in
    let lower : rank d < rank s =
      g.acyclic s d (subst (λ l. find_by_data l d ≡ true) (sym e) (found_middle before ds d)) in
    let (y, run, one) =
      complete_one-IsProgress recurse d st (enter_req env st s d).0 (enter_req env st s d).1
        {G = λ t. (t ≡ d) × IsFreed st s t} g'.no_update entered
        (rec (enter_req env st s d).0 d g' lower) (enter_gains env st s d) in
    let still : deps_of y s ≡ before ++ d ∷ ds = one.same_deps s ∙ e in
    let next : links_behind (deps_of y s) d ≡ some ds =
      subst (λ l. links_behind l d ≡ some ds) (sym still)
        (links_behind-middle before ds d (subst Distinct e (g.distinct s))) in
    let (z, more, rest) =
      complete_deps-IsProgress left recurse env rank rounds s (before ++ d ∷ []) ds y rec
        (still ∙ sym (append_assoc before (d ∷ []) ds)) (omega arith) (kept-IsGraph one g) in
    (
      z,
      rw (complete_deps, run, next) more,
      then-IsProgress (λ t h. head_or_rest st y s d ds t one h) one rest,
    )

-- What the loop makes complete is what the stub frees before it is marked.
still-IsFreed :
    (st x : Store) (s t : ℕ) {G : ℕ → Type 0}
    → IsProgress st G x
    → (find_by_data (deps_of st s) t ≡ true) × IsFreed st s t
    → (find_by_data (deps_of x s) t ≡ true) × IsFreed x s t
unfolding clear_bits
still-IsFreed st x s t p (found, (no_list, clear)) = (
  ap (λ l. find_by_data l t) (p.same_deps s) ∙ found,
  (p.same_info t ∙ no_list, rw (p.same_flag s) (p.fewer_flags t _ clear)),
)

only_self :
    (recurse : Store → ℕ → Option Store) {x : Store} {d : ℕ} {G : ℕ → Type 0}
    → (y : Store) × (recurse x d ≡ some y) × IsProgress x (λ t. (t ≡ d) ⊎ G t) y
    → Completes recurse x d
only_self recurse (y, run, p) =
    (y, run, then-IsProgress (λ t e. inr (inl e)) (unchanged _ (λ t h. h)) p)

-- Where no stub is being updated and the completion routines change no more of the stubs than to
-- complete some and to clear flags, `dep_complete` ends on a graph without a cycle and without a
-- dependent twice: with more fuel than the rank of the stub, and as many rounds as a stub has
-- dependents, it makes the stub complete and every direct dependent that is no list and all of whose
-- flags the stub clears; it makes no complete stub incomplete, keeps the dependents of every stub, and
-- sets no flag.
pub dep_complete-IsProgress :
    (fuel rounds : ℕ) (env : Env) (st : Store) (rank : ℕ → ℕ) (s : ℕ)
    → IsQuiet env
    → IsGraph st rank rounds
    → rank s < fuel
    → (st' : Store) × (dep_complete fuel rounds env st s ≡ some st')
      × IsProgress st (λ t. (t ≡ s) ⊎ ((find_by_data (deps_of st s) t ≡ true) × IsFreed st s t)) st'
unfolding dep_complete
dep_complete-IsProgress zero rounds env st rank s quiet g h = absurd (omega arith)
dep_complete-IsProgress (suc fuel) rounds env st rank s quiet g h =
    let x = mark_complete env st s in
    let marked = mark_complete-IsProgress env st s quiet in
    let g' = kept-IsGraph marked g in
    let (y, run, rest) =
      complete_deps-IsProgress rounds (dep_complete fuel rounds env) env rank rounds s []
        (deps_of x s) x
        (λ z d a lower.
          only_self (dep_complete fuel rounds env)
            (dep_complete-IsProgress fuel rounds env z rank d quiet a (omega arith)))
        refl (g'.few s) g' in
    (
      y,
      run,
      then-IsProgress
          (λ t h. elim h [ inl e ↦ inl e | inr f ↦ inr (still-IsFreed st x s t marked f) ]) marked
          rest,
    )
