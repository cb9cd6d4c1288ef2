-- ===== src/Profile/Filled.antt =====
-- What the driver's `main` leaves in the database.
use anonym_sharing.Base.{
  ℕ, suc, ◌≤◌, ◌≡◌, sym, ap, ◌∙◌, subst, arith, String, Bool, true, false, none, some, is_some,
  eq_refl, Bool-cases, ◌⊎◌, inl, inr, leb,
}
use anonym_sharing.Std.Order.{Bytes}
use anonym_sharing.Database.Calls.{creates_user, creates_group, adds_user_to_group}
use anonym_sharing.Database.Spec.{Spec, step, update}
use anonym_sharing.Profile.{user, group}

-- The users 0 to n exist, and are members of the group.
pub record IsFilled (n : ℕ) (a : Spec) : Type 0 where
  pub test : String → Bool
  pub is_group : a.members (group 1) ≡ some test
  pub exist : (i : ℕ) → i ≤ n → is_some (a.key_of (user i)) ≡ true
  pub belong : (i : ℕ) → i ≤ n → test (user i) ≡ true

update-same : {A : Type 0} (f : String → A) (k : String) (v : A) → update f k v k ≡ v
update-same f k v = ground (arith, eq_refl k)

-- A user that is created exists, and the others stay.
pub created :
    (u : String) (k : Bytes) (a : Spec) → is_some ((step (creates_user u k) a).key_of u) ≡ true
unfolding step
created u k a = ground (arith, eq_refl u)

pub still_there :
    (u w : String) (k : Bytes) (a : Spec)
    → is_some (a.key_of w) ≡ true
    → is_some ((step (creates_user u k) a).key_of w) ≡ true
unfolding step
still_there u w k a h = ground (arith, h)

pub created_members :
    (u : String) (k : Bytes) (a : Spec) → (step (creates_user u k) a).members ≡ a.members
unfolding step
created_members u k a = ground arith

pub creates_user-IsFilled :
    (n : ℕ) (u : String) (k : Bytes) (a : Spec)
    → IsFilled n a
    → IsFilled n (step (creates_user u k) a)
creates_user-IsFilled n u k a f = record {
  test = f.test;
  is_group = ap (λ m. m (group 1)) (created_members u k a) ∙ f.is_group;
  exist = λ i h. still_there u (user i) k a (f.exist i h);
  belong = f.belong;
}

pub below-cases : (i n : ℕ) → i ≤ suc n → (i ≤ n) ⊎ (i ≡ suc n)
below-cases i n h = elim (Bool-cases (leb i n)) [
  | inl e ↦ inl (ground (arith, e))
  | inr e ↦ inr (ground (arith, e, h))
]

-- The next user joins.
pub adds-IsFilled :
    (n : ℕ) (a : Spec)
    → is_some (a.key_of (user (suc n))) ≡ true
    → IsFilled n a
    → IsFilled (suc n) (step (adds_user_to_group (group 1) (user (suc n))) a)
unfolding step
adds-IsFilled n a h f = subst (IsFilled (suc n)) (sym joined) (record {
  test = update f.test next true;
  is_group = update-same a.members (group 1) _;
  exist = λ i b. elim (below-cases i n b) [
    | inl e ↦ f.exist i e
    | inr e ↦ subst (λ x. is_some (a.key_of (user x)) ≡ true) (sym e) h
  ];
  belong = λ i b. elim (below-cases i n b) [
    | inl e ↦ stays (f.belong i e)
    | inr e ↦
        subst (λ x. update f.test next true (user x) ≡ true) (sym e) (update-same f.test next true)
  ];
})
  where
    next : String
    next = user (suc n)

    joined :
        step (adds_user_to_group (group 1) next) a
        ≡ record a { members = update a.members (group 1) (some (update f.test next true)) }
    joined = rw (f.is_group, step) (rw h)

    stays : {w : String} → f.test w ≡ true → update f.test next true w ≡ true
    stays e = ground (arith, e)

pub group-IsFilled :
    (a : Spec)
    → is_some (a.key_of (user 0)) ≡ true
    → a.members (group 1) ≡ none
    → IsFilled 0 (step (creates_group (group 1) (user 0)) a)
unfolding step
group-IsFilled a h e = subst (IsFilled 0) (sym made) (record {
  test = update (λ w. false) (user 0) true;
  is_group = update-same a.members (group 1) _;
  exist = λ i b. subst (λ x. is_some (a.key_of (user x)) ≡ true) (omega (arith, b)) h;
  belong = λ i b.
      subst (λ x. update (λ w. false) (user 0) true (user x) ≡ true) (omega (arith, b))
        (update-same (λ w. false) (user 0) true);
})
  where
    made : step (creates_group (group 1) (user 0)) a ≡ record a {
      members = update a.members (group 1) (some (update (λ w. false) (user 0) true));
    }
    made = rw e (rw h)
