-- ===== src/Supervisor/Listed.antt =====
-- A thread that has not left the lists is the one that is listed for its task: what single changes
-- of the supervisor keep of it.
use existential_identity_tes.Base.{
  ◌≡◌, ◌⊎◌, ==_iff, ◌==◌, refl, ap, sym, ◌∙◌, ℕ, suc, zero, if◌then◌else◌, String, Bool, true,
  false, not, List, [], ◌∷◌, ◌++◌, Option, none, some, length, get_elem?, modify,
  get_elem?-modify_self, get_elem?-modify_ne, arith, Bool-cases, inl, inr,
}
use existential_identity_tes.Base.Text.{str_eq, str_eq_iff}
use existential_identity_tes.Base.Dict
use existential_identity_tes.Supervisor.{
  Supervisor, Worker, ThreadPhase, running, closing, leaving, dead, Outcome, returned, key_error,
  blocked, after, release, with_lock, is_dead, is_alive, alive_task, launch, set_flag, abort_task,
  time_out, heartbeat_stale, unlist, check_one, touch_heartbeat, in_phase, heartbeat_age, timed_out,
}

-- A thread that has its task on the lists: it has not taken it off yet.
abbrev pub is_listed : ThreadPhase → Bool
is_listed running = true
is_listed closing = true
is_listed _ = false

-- Each such thread is the one that is listed for its task.
abbrev pub IsListed : Supervisor → Type 0
IsListed s =
    (n : ℕ) (w : Worker)
    → get_elem? s.threads n ≡ some w
    → is_listed w.phase ≡ true
    → Dict.get s.tasks w.task_id ≡ some n

listed-alive : (p : ThreadPhase) → is_listed p ≡ true → is_dead p ≡ false
listed-alive running h = refl
listed-alive closing h = refl
listed-alive leaving h = refl
listed-alive dead h = sym h

pub is_alive-listed :
    (s : Supervisor) (n : ℕ) (w : Worker)
    → get_elem? s.threads n ≡ some w
    → is_listed w.phase ≡ true
    → is_alive n s ≡ true
unfolding is_alive
is_alive-listed s n w e h =
    ap (λ o. elim o [ none ↦ false | some v ↦ not (is_dead v.phase) ]) e
    ∙ ap not (listed-alive w.phase h)

pub some-inj : (n m : ℕ) → some n ≡ some m → n ≡ m
some-inj n m p = ap (λ o. elim o [ none ↦ n | some x ↦ x ]) p

pub true-false : {b : Bool} → b ≡ true → b ≡ false → ⊥
true-false e f = ground (arith, e, f)

get_elem?-snoc :
    (xs : List Worker) (x y : Worker) (n : ℕ)
    → get_elem? (xs ++ x ∷ []) n ≡ some y
    → (get_elem? xs n ≡ some y) ⊎ ((n ≡ length xs) × (x ≡ y))
get_elem?-snoc [] x y zero e = inr (refl, ap (λ o. elim o [ none ↦ x | some v ↦ v ]) e)
get_elem?-snoc [] x y (suc n) e = inl e
get_elem?-snoc (z ∷ zs) x y zero e = inl e
get_elem?-snoc (z ∷ zs) x y (suc n) e = elim (get_elem?-snoc zs x y n e) [
  | inl f ↦ inl f
  | inr f ↦ inr (ap suc f.0, f.1)
]

module _ {ℓ} {A : Type ℓ} where
  release-IsListed : (o : Outcome A) → IsListed (after o) → IsListed (after (release o))
  release-IsListed (returned a s) h = h
  release-IsListed (key_error s) h = h
  release-IsListed (blocked s) h = h

  pub with_lock-IsListed :
      (body : Supervisor → Outcome A) (s : Supervisor)
      → ((t : Supervisor) → IsListed t → IsListed (after (body t)))
      → IsListed s
      → IsListed (after (with_lock body s))
  unfolding with_lock
  with_lock-IsListed body s k h = go s.lock_held
    where
      go :
          (b : Bool)
          → IsListed
              (after (if b then blocked s else release (body (record s { lock_held = true }))))
      go true = h
      go false =
          release-IsListed (body (record s { lock_held = true }))
            (k (record s { lock_held = true }) h)

pub launch-IsListed :
    (now : ℕ) (id : String) (s : Supervisor)
    → alive_task (Dict.get s.tasks id) s ≡ false
    → IsListed s
    → IsListed (launch now id s)
unfolding launch touch_heartbeat alive_task
launch-IsListed now id s a h n w e l =
    Dict.get-put s.tasks id w.task_id (length s.threads)
    ∙ elim (get_elem?-snoc s.threads (record { task_id = id; phase = running }) w n e) [
      | inl old ↦ elim (Bool-cases (str_eq id w.task_id)) [
        | inl q ↦ absurd (
            true-false
              (ap (λ o. alive_task o s)
                  (ap (λ i. Dict.get s.tasks i) ((str_eq_iff id w.task_id).0 q) ∙ h n w old l)
                ∙ is_alive-listed s n w old l)
              a)
        | inr q ↦ rw q (h n w old l)
      ]
      | inr new ↦ rw (← new.1, (str_eq_iff id id).1 refl, new.0) refl
    ]

pub unlist-IsListed :
    (id : String) (s : Supervisor) (n : ℕ)
    → Dict.get s.tasks id ≡ some n
    → ((w : Worker) → get_elem? s.threads n ≡ some w → is_listed w.phase ≡ true → ⊥)
    → IsListed s
    → IsListed (unlist id s)
unfolding unlist
unlist-IsListed id s n g a h m w e l =
    Dict.get-remove s.tasks id w.task_id ∙ elim (Bool-cases (str_eq id w.task_id)) [
      | inl q ↦ absurd (a w (rw (same q) e) l)
      | inr q ↦ rw q (h m w e l)
    ]
  where
    same : str_eq id w.task_id ≡ true → n ≡ m
    same q =
        some-inj n m
          (sym g ∙ (ap (λ i. Dict.get s.tasks i) ((str_eq_iff id w.task_id).0 q) ∙ h m w e l))

pub some-worker : (v w : Worker) → some v ≡ some w → v ≡ w
some-worker v w p = ap (λ o. elim o [ none ↦ v | some x ↦ x ]) p

pub in_phase-IsListed :
    (p : ThreadPhase) (n : ℕ) (v : Worker) (s : Supervisor)
    → get_elem? s.threads n ≡ some v
    → (is_listed p ≡ true → is_listed v.phase ≡ true)
    → IsListed s
    → IsListed (in_phase p n s)
unfolding in_phase
in_phase-IsListed p n v s g k h m w e l = elim (Bool-cases (n == m)) [
  | inl q ↦
      let same =
        some-worker w (record v { phase = p })
          (sym (
              ap (λ i. get_elem? (modify s.threads n (λ x. record x { phase = p })) i)
                ((==_iff n m).0 q)
              ∙ e)
            ∙ get_elem?-modify_self s.threads n (λ x. record x { phase = p }) v g) in
      ap (λ x. Dict.get s.tasks x.task_id) same
      ∙ (h n v g (k (ap (λ x. is_listed x.phase) (sym same) ∙ l)) ∙ ap some ((==_iff n m).0 q))
  | inr q ↦
      h m w
        (sym (
            get_elem?-modify_ne s.threads n m (λ x. record x { phase = p })
              (λ r. true-false ((==_iff n m).1 (sym r)) q))
          ∙ e)
        l
]

set_flag-IsListed : (o : Option ℕ) (s : Supervisor) → IsListed s → IsListed (after (set_flag o s))
unfolding set_flag
set_flag-IsListed none s h = h
set_flag-IsListed (some f) s h = h

pub abort_task-IsListed :
    (id : String) (s : Supervisor) → IsListed s → IsListed (after (abort_task id s))
unfolding abort_task
abort_task-IsListed id s h =
    with_lock-IsListed (λ t. set_flag (Dict.get t.abort_flags id) t) s
      (λ t. set_flag-IsListed (Dict.get t.abort_flags id) t) h

time_out-IsListed :
    (now : ℕ) (id : String) (s : Supervisor) → IsListed s → IsListed (after (time_out now id s))
unfolding time_out
time_out-IsListed now id s h = go (abort_task id s) (abort_task-IsListed id s h)
  where
    go :
        (o : Outcome Bool)
        → IsListed (after o)
        → IsListed (
            after (elim o [
              | returned b t ↦ returned (timed_out id (heartbeat_age now id s) ∷ []) t
              | key_error t ↦ key_error t
              | blocked t ↦ blocked t
            ]))
    go (returned b t) k = k
    go (key_error t) k = k
    go (blocked t) k = k

pub check_one-IsListed :
    (now : ℕ) (id : String) (o : Option ℕ) (s : Supervisor)
    → Dict.get s.tasks id ≡ o
    → IsListed s
    → IsListed (after (check_one now id o s))
unfolding check_one
check_one-IsListed now id none s g h = h
check_one-IsListed now id (some n) s g h = elim (Bool-cases (is_alive n s)) [
  | inl a ↦ rw a (go (heartbeat_stale now id s))
  | inr a ↦ rw a (unlist-IsListed id s n g (λ w e l. true-false (is_alive-listed s n w e l) a) h)
]
  where
    go : (b : Bool) → IsListed (after (if b then time_out now id s else returned [] s))
    go true = time_out-IsListed now id s h
    go false = h
