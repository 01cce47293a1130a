-- ===== src/Api/Exclusive.antt =====
-- internal/api/stage_handlers.go: the marks as locks, where no two handlers overlap.
use devteam.Prelude.{
  Bool, Bool-cases, List, Option-cases, String, [], ap, arith, beq_refl, elem, false, inl, inr,
  keep, not, refl, some, string_eq, suc, zero, ℕ, ◌+◌, ◌≡◌, ◌∙◌, ◌&&◌, ◌∷◌, ◌==◌, if◌then◌else◌,
  nat_eq, text_eq,
}
use devteam.Pipeline.System.{System, Env}
use devteam.Api.Server.{Server, Worker, is_feature_active, unmark_feature_active, with_sys}
use devteam.Api.Requests.{Request, handle, is_forced}
use devteam.Api.Workers.{Job, nth, without, finish}
use devteam.Api.Starts.{Starts, handle-Starts}

-- How many goroutines work on a feature.
unfoldable pub holders : String → List Worker → ℕ
holders id [] = 0
holders id (w ∷ ws) = (if w.feature_id == id then 1 else 0) + holders id ws

-- A feature that is marked has one goroutine, and one that is not has none.
abbrev pub IsExclusive : Server → Type 0
IsExclusive s = (id : String) → holders id s.workers ≡ (if is_feature_active s id then 1 else 0)

-- A step of the server: a request of stage_handlers.go other than a forced run, with no other between
-- its check of the mark and its mark, the end of a goroutine, or what goroutines, agents and others write in the meantime. The other files of the
-- package, the restart of the server among them, mark and unmark features as well, and have no step.
pub data Step (env : Env) : Server → Server → Type 0 where
  handled : (s : Server) (r : Request) → is_forced r ≡ false → Step env s (handle env r s).0
  finished : (s : Server) (job : Job) (n : ℕ) → Step env s (finish env job n s)
  written : (s : Server) (sys : System) → Step env s (with_sys sys s)

-- One lock for each feature, by how many hold it.
pub data LockStep (h h' : String → ℕ) : Type 0 where
  kept : ((id : String) → h' id ≡ h id) → LockStep h h'
  acquired :
      (id : String)
      → h id ≡ 0
      → h' id ≡ 1
      → ((other : String) → (id == other) ≡ false → h' other ≡ h other)
      → LockStep h h'
  released :
      (id : String)
      → h id ≡ 1
      → h' id ≡ 0
      → ((other : String) → (id == other) ≡ false → h' other ≡ h other)
      → LockStep h h'

holders-without :
    (ws : List Worker) (n : ℕ) (w : Worker) (id : String)
    → nth n ws ≡ some w
    → holders id ws ≡ (if w.feature_id == id then 1 else 0) + holders id (without n ws)
unfolding holders
holders-without [] n w id e = absurd (cc e)
holders-without (v ∷ ws) zero w id e = ground (arith, e)
holders-without (v ∷ ws) (suc n) w id e = omega (arith, holders-without ws n w id e)

pub elem-unmark :
    (id x : String) (keys : List String)
    → elem x (keep (λ a. not (a == id)) keys) ≡ (not (id == x) && elem x keys)
elem-unmark id x [] = elim (Bool-cases (id == x)) [ inl e ↦ rw e refl | inr e ↦ rw e refl ]
elem-unmark id x (a ∷ keys) =
    let rest = elem-unmark id x keys in
    elim (Bool-cases (a == id)) [
      | inl e ↦
          let same : a ≡ id = (string_eq.beq_iff a id).0 e in
          elim (Bool-cases (id == x)) [
            | inl f ↦ rw (e, rest, f) refl
            | inr f ↦ rw (e, rest, same, f) refl
          ]
      | inr e ↦ elim (Bool-cases (id == x)) [
        | inl f ↦
            let other : (a == x) ≡ false = rw (← (string_eq.beq_iff id x).0 f) e in
            rw (e, rest, f, other) refl
        | inr f ↦ rw (e, rest, f) refl
      ]
    ]

pub zero_add : (n : ℕ) → 0 + n ≡ n
zero_add n = omega arith

step_started :
    (s s' : Server)
    → IsExclusive s
    → Starts s s'
    → IsExclusive s' × LockStep (λ id. holders id s.workers) (λ id. holders id s'.workers)
unfolding is_feature_active holders
step_started s s' h (inl (a, w)) = ((λ id. rw (a, w) (h id)), kept (λ id. rw w refl))
step_started s s' h (inr (id, task, free, a, w)) =
    let none_there : holders id s.workers ≡ 0 = h id ∙ rw free refl in
    (
      (λ x. elim (Bool-cases (id == x)) [
        | inl e ↦
            let same : id ≡ x = (string_eq.beq_iff id x).0 e in
            let gone : holders x s.workers ≡ 0 = rw (← same) none_there in
            rw (a, w, e) (ap (λ n. 1 + n) gone)
        | inr e ↦ rw (a, w, e) (zero_add _ ∙ h x)
      ]),
      acquired id none_there (rw (w, beq_refl id, none_there) refl) (λ x e. rw (w, e) (zero_add _)),
    )

flag : Bool → ℕ
flag b = if b then 1 else 0

-- What the end of a goroutine leaves of the marks and the goroutines.
step_released :
    (s s' : Server) (n : ℕ) (w : Worker)
    → IsExclusive s
    → nth n s.workers ≡ some w
    → s'.active ≡ keep (λ a. not (a == w.feature_id)) s.active
    → s'.workers ≡ without n s.workers
    → IsExclusive s' × LockStep (λ id. holders id s.workers) (λ id. holders id s'.workers)
unfolding is_feature_active
step_released s s' n w h e a ws =
    let id = w.feature_id in
    let split : (x : String)
        → holders x s.workers ≡ (if id == x then 1 else 0) + holders x (without n s.workers) =
      λ x. holders-without s.workers n w x e in
    let one : holders id s.workers ≡ 1 = elim (Bool-cases (elem id s.active)) [
      | inl marked ↦ h id ∙ rw marked refl
      | inr off ↦
          let zero_there : holders id s.workers ≡ 0 = h id ∙ rw off refl in
          let here = rw (beq_refl id) at (split id) in absurd (omega (arith, zero_there, here))
    ] in
    let gone : holders id (without n s.workers) ≡ 0 =
      let here = rw (beq_refl id) at (split id) in omega (arith, one, here) in
    let others : (x : String)
        → (id == x) ≡ false
        → holders x (without n s.workers) ≡ holders x s.workers =
      λ x f. let here = rw f at (split x) in omega (arith, here) in
    (
      (λ x.
          rw (a, ws, elem-unmark id x s.active)
            (elim (Bool-cases (id == x)) [
              | inl f ↦ rw (f, ← (string_eq.beq_iff id x).0 f) gone
              | inr f ↦ rw f (others x f ∙ h x)
            ])),
      released id one (rw ws gone) (λ x f. rw ws (others x f)),
    )

step_finished :
    (env : Env) (job : Job) (n : ℕ) (s : Server)
    → IsExclusive s
    → let s' = finish env job n s in
      IsExclusive s' × LockStep (λ id. holders id s.workers) (λ id. holders id s'.workers)
unfolding finish unmark_feature_active
step_finished env job n s h = elim (Option-cases (nth n s.workers)) [
  | inl e ↦ rw (finish, e) (h, kept (λ id. refl))
  | inr (w, e) ↦
      step_released s (finish env job n s) n w h e (rw (finish, e) refl) (rw (finish, e) refl)
]

pub step-LockStep :
    (env : Env) (s s' : Server)
    → IsExclusive s
    → Step env s s'
    → IsExclusive s' × LockStep (λ id. holders id s.workers) (λ id. holders id s'.workers)
unfolding is_feature_active
step-LockStep env s s' h (handled t r e) =
    step_started s (handle env r s).0 h (handle-Starts env r s e)
step-LockStep env s s' h (finished t job n) = step_finished env job n s h
step-LockStep env s s' h (written t sys) = (h, kept (λ id. refl))
