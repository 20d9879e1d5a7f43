-- ===== src/Retrieve/Progress.antt =====
-- The changes of the store on the way of `dep_complete`, and what they keep.
use epri_client.Prelude.{
  ℕ, ◌≡◌, refl, sym, ◌∙◌, arith, true, [], ◌==◌, Bool-cases, inl, inr, bit_and, ◌⊎◌,
}
use mathlib.Core.Path.{subst}
use epri_client.Retrieve.{Stub, Call, Store, put_stub, emit}
use epri_client.Retrieve.Graph.{drop_old}
use epri_client.Retrieve.Reset.{deps_of}

-- What the completion of resources makes complete, and what it keeps: the dependents, and the old
-- requirements of an update; it adds no flag, and no complete stub becomes incomplete.
pub record IsProgress (st : Store) (Gained : ℕ → Type 0) (st' : Store) : Type 0 where
  pub same_deps : (t : ℕ) → deps_of st' t ≡ deps_of st t
  pub same_list : (t : ℕ) → (st'.stub t).list ≡ (st.stub t).list
  pub same_info : (t : ℕ) → (st'.stub t).info ≡ (st.stub t).info
  pub same_flag : (t : ℕ) → (st'.stub t).flag ≡ (st.stub t).flag
  pub fewer_flags : (t m : ℕ) → bit_and (st.stub t).flags m ≡ 0 → bit_and (st'.stub t).flags m ≡ 0
  pub stays : (t : ℕ) → (st.stub t).complete ≡ true → (st'.stub t).complete ≡ true
  pub gained : (t : ℕ) → Gained t → (st'.stub t).complete ≡ true

-- What the change of one stub keeps.
pub record IsStep (b v : Stub) : Type 0 where
  pub deps : v.deps ≡ b.deps
  pub list : v.list ≡ b.list
  pub info : v.info ≡ b.info
  pub flag : v.flag ≡ b.flag
  pub flags : (m : ℕ) → bit_and b.flags m ≡ 0 → bit_and v.flags m ≡ 0
  pub stays : b.complete ≡ true → v.complete ≡ true

put_stub-IsStep :
    (st : Store) (k : ℕ) (v : Stub)
    → IsStep (st.stub k) v
    → (t : ℕ) → IsStep (st.stub t) ((put_stub st k v).stub t)
put_stub-IsStep st k v h t = elim (Bool-cases (t == k)) [
  | inl same ↦
      let eq : t ≡ k = ground arith in rw same (subst (λ x. IsStep (st.stub x) v) (sym eq) h)
  | inr other ↦ rw other (record {
    deps = refl;
    list = refl;
    info = refl;
    flag = refl;
    flags = λ m e. e;
    stays = λ e. e;
  })
]

pub put_stub-IsProgress :
    (st : Store) (k : ℕ) (v : Stub)
    → IsStep (st.stub k) v
    → IsProgress st (λ t. ⊥) (put_stub st k v)
put_stub-IsProgress st k v h = record {
  same_deps = λ t. (put_stub-IsStep st k v h t).deps;
  same_list = λ t. (put_stub-IsStep st k v h t).list;
  same_info = λ t. (put_stub-IsStep st k v h t).info;
  same_flag = λ t. (put_stub-IsStep st k v h t).flag;
  fewer_flags = λ t m. (put_stub-IsStep st k v h t).flags m;
  stays = λ t. (put_stub-IsStep st k v h t).stays;
  gained = λ t g. absurd g;
}

pub then-IsProgress :
    {st st' st'' : Store} {L M N : ℕ → Type 0}
    → ((t : ℕ) → N t → L t ⊎ M t)
    → IsProgress st L st'
    → IsProgress st' M st''
    → IsProgress st N st''
then-IsProgress split a b = record {
  same_deps = λ t. b.same_deps t ∙ a.same_deps t;
  same_list = λ t. b.same_list t ∙ a.same_list t;
  same_info = λ t. b.same_info t ∙ a.same_info t;
  same_flag = λ t. b.same_flag t ∙ a.same_flag t;
  fewer_flags = λ t m h. b.fewer_flags t m (a.fewer_flags t m h);
  stays = λ t h. b.stays t (a.stays t h);
  gained = λ t n. elim (split t n) [ inl l ↦ b.stays t (a.gained t l) | inr m ↦ b.gained t m ];
}

pub unchanged : (st : Store) {G : ℕ → Type 0} → ((t : ℕ) → ¬ G t) → IsProgress st G st
unchanged st none_gained = record {
  same_deps = λ t. refl;
  same_list = λ t. refl;
  same_info = λ t. refl;
  same_flag = λ t. refl;
  fewer_flags = λ t m h. h;
  stays = λ t h. h;
  gained = λ t g. absurd (none_gained t g);
}

pub emitted :
    {st x : Store} {G : ℕ → Type 0} (c : Call) → IsProgress st G x → IsProgress st G (emit x c)
emitted c h = record {
  same_deps = h.same_deps;
  same_list = h.same_list;
  same_info = h.same_info;
  same_flag = h.same_flag;
  fewer_flags = h.fewer_flags;
  stays = h.stays;
  gained = h.gained;
}

pub same-IsStep :
    (b v : Stub)
    → v.deps ≡ b.deps
    → v.list ≡ b.list
    → v.info ≡ b.info
    → v.flag ≡ b.flag
    → v.flags ≡ b.flags
    → v.complete ≡ b.complete
    → IsStep b v
same-IsStep b v e₁ l e₂ e₃ e₄ e₅ = record {
  deps = e₁;
  list = l;
  info = e₂;
  flag = e₃;
  flags = λ m h. rw e₄ h;
  stays = λ h. rw e₅ h;
}

-- No stub is being updated, so that none has old requirements.
abbrev pub NoUpdate : Store → Type 0
NoUpdate st = (t : ℕ) → (st.stub t).list ≡ []

pub drop_old_none : (st : Store) (d : ℕ) → NoUpdate st → drop_old st d ≡ st
unfolding drop_old
drop_old_none st d none_old = rw (none_old d) refl
