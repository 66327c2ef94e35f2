-- ===== src/Supervisor/Deadlock.antt =====
-- The lock is not reentrant: two calls take it twice, and nothing releases it again.
use existential_identity_tes.Base.{
  ◌≡◌, refl, ap, sym, ◌∙◌, ℕ, String, true, false, List, [], ◌∷◌, ◌++◌, none, some, All, arith,
  Bool-cases, inl, inr,
}
use existential_identity_tes.Base.Pairs.{Pairs}
use existential_identity_tes.Base.Text.{str_eq, str_eq_iff, elem}
use existential_identity_tes.Base.Dict
use existential_identity_tes.Supervisor.{
  Supervisor, Outcome, returned, key_error, blocked, after, is_blocked, release, with_lock,
  and_then, is_alive, alive_task, set_flag, heartbeat_age, get_progress, Event, ended, timed_out,
  abort_task, is_running, time_out, heartbeat_stale, unlist, check_one, check_each, check_tasks,
  keys, progress_of, progress_each, get_all_progress, state_of,
}
use existential_identity_tes.Supervisor.Steps.{Reach}
use existential_identity_tes.Supervisor.Listed.{true-false, some-inj}
use existential_identity_tes.Supervisor.Stuck.{
  IsStuck, with_lock-held, with_lock-free, Reach-IsStuck,
}

module _ (now : ℕ) (j : String) (m : ℕ) (t : Supervisor) where
  check_one-stale :
      t.lock_held ≡ true
      → is_alive m t ≡ true
      → heartbeat_stale now j t ≡ true
      → check_one now j (some m) t ≡ blocked t
  unfolding check_one time_out abort_task
  check_one-stale l a b =
      rw (a, b)
        (ap
          (λ o. elim o [
            | returned b u ↦ returned (timed_out j (heartbeat_age now j t) ∷ []) u
            | key_error u ↦ key_error u
            | blocked u ↦ blocked u
          ])
          (with_lock-held (λ x. set_flag (Dict.get x.abort_flags j) x) t l))

  check_one-fresh :
      is_alive m t ≡ true
      → heartbeat_stale now j t ≡ false
      → check_one now j (some m) t ≡ returned [] t
  unfolding check_one
  check_one-fresh a b = rw (a, b) refl

  check_one-dead :
      is_alive m t ≡ false
      → check_one now j (some m) t ≡ returned (ended j (state_of j t) ∷ []) (unlist j t)
  unfolding check_one
  check_one-dead a = rw a refl

-- A loop that waits for ever, with the lock held.
abbrev Waits {ℓ} : {A : Type ℓ} → Outcome A → Type ℓ
Waits o = (t : Supervisor) × ((o ≡ blocked t) × (t.lock_held ≡ true))

and_then-Waits :
    (es : List Event) (s : Supervisor) (k : Supervisor → Outcome (List Event))
    → Waits (k s)
    → Waits (and_then (returned es s) k)
and_then-Waits es s k w = (
  w.0,
  (
    ap
        (λ o. elim o [
          | returned fs t ↦ returned (es ++ fs) t
          | key_error t ↦ key_error t
          | blocked t ↦ blocked t
        ])
        w.1.0,
    w.1.1,
  ),
)

module _ (now : ℕ) (id : String) (n : ℕ) where
  -- The lock is held, and the task is listed with a live thread and a stale heartbeat.
  abbrev IsOverdue : Supervisor → Type 0
  IsOverdue t =
      (t.lock_held ≡ true)
      × ((Dict.get t.tasks id ≡ some n)
          × ((is_alive n t ≡ true) × (heartbeat_stale now id t ≡ true)))

  abbrev AllListed : Supervisor → List String → Type 0
  AllListed t ids = All (λ k. (m : ℕ) × (Dict.get t.tasks k ≡ some m)) ids

  unlist-AllListed :
      (j : String) (ids : List String) (t : Supervisor)
      → All (λ b. str_eq j b ≡ false) ids
      → AllListed t ids
      → AllListed (unlist j t) ids
  unfolding unlist
  unlist-AllListed j [] t d k = tt
  unlist-AllListed j (i ∷ ids) t d k =
      ((k.0.0, rw (Dict.get-remove t.tasks j i, d.0) k.0.1), unlist-AllListed j ids t d.1 k.1)

  unlist-IsOverdue :
      (j : String) (t : Supervisor) → str_eq j id ≡ false → IsOverdue t → IsOverdue (unlist j t)
  unfolding unlist is_alive heartbeat_stale heartbeat_age
  unlist-IsOverdue j t d o = (o.0, (rw (Dict.get-remove t.tasks j id, d) o.1.0, o.1.1))

  fresh_other :
      (j : String) (t : Supervisor)
      → heartbeat_stale now j t ≡ false
      → heartbeat_stale now id t ≡ true
      → str_eq j id ≡ false
  fresh_other j t b c = elim (Bool-cases (str_eq j id)) [
    | inl e ↦ absurd (true-false (ap (λ i. heartbeat_stale now i t) ((str_eq_iff j id).0 e) ∙ c) b)
    | inr e ↦ e
  ]

  dead_other :
      (j : String) (m : ℕ) (t : Supervisor)
      → Dict.get t.tasks j ≡ some m
      → is_alive m t ≡ false
      → Dict.get t.tasks id ≡ some n
      → is_alive n t ≡ true
      → str_eq j id ≡ false
  dead_other j m t g a f b = elim (Bool-cases (str_eq j id)) [
    | inl e ↦ absurd (
        true-false
          (ap (λ i. is_alive i t)
              (some-inj m n (sym g ∙ (ap (λ i. Dict.get t.tasks i) ((str_eq_iff j id).0 e) ∙ f)))
            ∙ b)
          a)
    | inr e ↦ e
  ]

  -- The loop of check_tasks over distinct keys that are all listed waits for ever at such a task.
  check_each-Waits :
      (ids : List String) (t : Supervisor)
      → IsOverdue t
      → Pairs (λ a b. str_eq a b ≡ false) ids
      → AllListed t ids
      → elem id ids ≡ true
      → Waits (check_each now ids t)
  unfolding check_each elem
  check_each-Waits [] t o p k h = absurd (true-false h refl)
  check_each-Waits (j ∷ ids) t o p k h = rw k.0.1 (elim (Bool-cases (is_alive k.0.0 t)) [
    | inl a ↦ elim (Bool-cases (heartbeat_stale now j t)) [
      | inl b ↦ rw (check_one-stale now j k.0.0 t o.0 a b) (t, (refl, o.0))
      | inr b ↦ rw (check_one-fresh now j k.0.0 t a b) (
          and_then-Waits [] t (check_each now ids)
            (check_each-Waits ids t o p.1 k.1 (ground (arith, h, fresh_other j t b o.1.1.1))))
    ]
    | inr a ↦ rw (check_one-dead now j k.0.0 t a) (
        and_then-Waits (ended j (state_of j t) ∷ []) (unlist j t) (check_each now ids) (
          check_each-Waits ids (unlist j t)
            (unlist-IsOverdue j t (dead_other j k.0.0 t k.0.1 a o.1.0 o.1.1.0) o) p.1
            (unlist-AllListed j ids t p.0 k.1)
            (ground (arith, h, dead_other j k.0.0 t k.0.1 a o.1.0 o.1.1.0))))
  ])

keys-weaken :
    (j : String) (v : ℕ) (d : Dict.Dict ℕ) (ids : List String)
    → All (λ k. (m : ℕ) × (Dict.get d k ≡ some m)) ids
    → All (λ k. (m : ℕ) × (Dict.get ((j, v) ∷ d) k ≡ some m)) ids
unfolding Dict.get
keys-weaken j v d [] h = tt
keys-weaken j v d (k ∷ ids) h = elim (Bool-cases (str_eq j k)) [
  | inl e ↦ ((v, rw e refl), keys-weaken j v d ids h.1)
  | inr e ↦ ((h.0.0, rw e h.0.1), keys-weaken j v d ids h.1)
]

keys-listed : (d : Dict.Dict ℕ) → All (λ k. (m : ℕ) × (Dict.get d k ≡ some m)) (keys d)
unfolding Dict.get
keys-listed [] = tt
keys-listed ((j, v) ∷ d) =
    ((v, rw ((str_eq_iff j j).1 refl) refl), keys-weaken j v d (keys d) (keys-listed d))

elem-keys :
    (id : String) (n : ℕ) (d : Dict.Dict ℕ) → Dict.get d id ≡ some n → elem id (keys d) ≡ true
unfolding Dict.get elem
elem-keys id n [] h =
    absurd (true-false refl (ap (λ o. elim o [ none ↦ false | some x ↦ true ]) (sym h)))
elem-keys id n ((j, v) ∷ d) h = elim (Bool-cases (str_eq j id)) [
  | inl e ↦ rw e refl
  | inr e ↦ rw e (elem-keys id n d (rw e at h))
]

module _ {ℓ} {A : Type ℓ} where
  -- A call that takes the free lock and then waits for it leaves a state that is stuck.
  release-Waits :
      (body : Supervisor → Outcome A) (s : Supervisor) {u : Supervisor}
      → s.lock_held ≡ false
      → Waits (body (record s { lock_held = true }))
      → Reach (after (with_lock body s)) u
      → (is_blocked (with_lock body s) ≡ true) × IsStuck (after (with_lock body s)) u
  release-Waits body s e w r = (
    ap (λ o. is_blocked o) same,
    Reach-IsStuck (after (with_lock body s)) r (ap (λ o. (after o).lock_held) same ∙ w.1.1, refl),
  )
    where
      same : with_lock body s ≡ blocked w.0
      same = with_lock-free body s e ∙ ap release w.1.0

-- Where the lock is free, the keys of the list are distinct and a task is listed with a live thread
-- and a heartbeat older than two minutes: check_tasks never returns, and in every state that is
-- reached from there the lock is held and the lists are what they were, so that no thread leaves them.
pub check_tasks-deadlock :
    (now : ℕ) (id : String) (n : ℕ) (s u : Supervisor)
    → s.lock_held ≡ false
    → Pairs (λ a b. str_eq a b ≡ false) (keys s.tasks)
    → Dict.get s.tasks id ≡ some n
    → is_alive n s ≡ true
    → heartbeat_stale now id s ≡ true
    → Reach (after (check_tasks now s)) u
    → (is_blocked (check_tasks now s) ≡ true) × IsStuck (after (check_tasks now s)) u
unfolding check_tasks is_alive heartbeat_stale heartbeat_age
check_tasks-deadlock now id n s u e d g a b r =
    release-Waits (λ t. check_each now (keys t.tasks) t) s e
      (check_each-Waits now id n (keys s.tasks) (record s { lock_held = true }) (refl, (g, (a, b)))
        d (keys-listed s.tasks) (elem-keys id n s.tasks g))
      r

progress_of-blocked :
    (now : ℕ) (id : String) (t : Supervisor) → t.lock_held ≡ true → progress_of now id t ≡ blocked t
unfolding progress_of is_running
progress_of-blocked now id t l =
    ap
      (λ o. elim o [
        | returned b u ↦
            returned
              (record {
                task_id = id;
                text = get_progress id t;
                heartbeat_age = heartbeat_age now id t;
                is_running = b;
              }
                ∷ [])
              u
        | key_error u ↦ key_error u
        | blocked u ↦ blocked u
      ])
      (with_lock-held (λ x. returned (alive_task (Dict.get x.tasks id) x) x) t l)

progress_each-Waits :
    (now : ℕ) (id : String) (n : ℕ) (d : Dict.Dict ℕ) (t : Supervisor)
    → t.lock_held ≡ true
    → Dict.get d id ≡ some n
    → Waits (progress_each now (keys d) t)
unfolding progress_each Dict.get
progress_each-Waits now id n [] t l h =
    absurd (true-false refl (ap (λ o. elim o [ none ↦ false | some x ↦ true ]) (sym h)))
progress_each-Waits now id n ((j, v) ∷ d) t l h = rw (progress_of-blocked now j t l) (t, (refl, l))

-- Where the lock is free and any task is listed, get_all_progress never returns, and in every state
-- that is reached from there the lock is held and the lists are what they were.
pub get_all_progress-deadlock :
    (now : ℕ) (id : String) (n : ℕ) (s u : Supervisor)
    → s.lock_held ≡ false
    → Dict.get s.tasks id ≡ some n
    → Reach (after (get_all_progress now s)) u
    → (is_blocked (get_all_progress now s) ≡ true) × IsStuck (after (get_all_progress now s)) u
unfolding get_all_progress
get_all_progress-deadlock now id n s u e g r =
    release-Waits (λ t. progress_each now (keys t.tasks) t) s e
      (progress_each-Waits now id n s.tasks (record s { lock_held = true }) refl g) r
