-- ===== src/Feature/Asked.antt =====
-- internal/feature/question.go: what holds of the questions of a feature over all operations.
use devteam.Prelude.{
  All, All-append, All-mem, Bool-cases, List, Option, Option-cases, String, [], ap, arith, change,
  find, find-mem, inl, inr, ltb, none, refl, some, true, ℕ, ◌+◌, ◌<◌, ◌≡◌, ◌≢◌, ◌∷◌, ◌++◌, ◌==◌,
  if◌then◌else◌, nat_eq, string_eq, text_eq,
}
use devteam.Feature.Questions.{
  Question, QuestionStatus, pending, answered, assumed, Disk, Reply, max_num, next_question_id,
  as_created, has_id, change_first, resolve, as_answered, as_assumed, create_question,
  answer_question, assume_question, is_pending,
}

abbrev Fits : QuestionStatus → Option String → Option String → Option ℕ → Type 0
Fits pending a b t = (a ≡ none) × (b ≡ none) × (t ≡ none)
Fits answered a b t = (a ≢ none) × (b ≡ none) × (t ≢ none)
Fits assumed a b t = (a ≡ none) × (b ≢ none) × (t ≢ none)

-- A question has an answer or an assumption, and a time, exactly as its status says.
abbrev pub IsConsistent : Question → Type 0
IsConsistent q = Fits q.status q.answer q.assumption q.answered_at

-- The ids ascend from above `m`.
abbrev pub Ascend : ℕ → List Question → Type 0
Ascend m [] = Unit
Ascend m (q ∷ qs) = (m < q.id) × Ascend q.id qs

pub record IsStore (qs : List Question) : Type 0 where
  pub ascending : Ascend 0 qs
  pub consistent : All IsConsistent qs

pub data Request : Type 0 where
  create : (now : ℕ) (feature_id : String) (q : Question) → Request
  answer : (now id : ℕ) (text : String) → Request
  assume : (now id : ℕ) (text : String) → Request

abbrev pub execute : Disk → Request → List Question → List Question × Reply
execute disk (create now f q) qs = create_question disk now f q qs
execute disk (answer now id text) qs = answer_question disk now id text qs
execute disk (assume now id text) qs = assume_question disk now id text qs

Ascend-append :
    (m : ℕ) (qs : List Question) (q : Question)
    → Ascend m qs
    → max_num m qs < q.id
    → Ascend m (qs ++ q ∷ [])
Ascend-append m [] q h le = (le, tt)
Ascend-append m (p ∷ qs) q (lt, h) le =
    let here : ltb m p.id ≡ true = ground (arith, lt) in
    (lt, Ascend-append p.id qs q h (rw⁻¹ (ap (λ b. max_num (if b then p.id else m) qs) here) le))

Ascend-change_first :
    (m id : ℕ) (change : Question → Question) (qs : List Question)
    → ((q : Question) → (change q).id ≡ q.id)
    → Ascend m qs
    → Ascend m (change_first id change qs)
Ascend-change_first m id change [] same h = tt
Ascend-change_first m id change (q ∷ qs) same (lt, h) = elim (Bool-cases (q.id == id)) [
  | inl hit ↦ rw hit (rw (same q) (lt, h))
  | inr miss ↦ rw miss (lt, Ascend-change_first q.id id change qs same h)
]

IsConsistent-change_first :
    (id : ℕ) (change : Question → Question) (qs : List Question) (p : Question)
    → find (has_id id) qs ≡ some p
    → IsConsistent (change p)
    → All IsConsistent qs
    → All IsConsistent (change_first id change qs)
IsConsistent-change_first id change [] p e c h = tt
IsConsistent-change_first id change (q ∷ qs) p e c (hq, h) = elim (Bool-cases (q.id == id)) [
  | inl hit ↦ let same : q ≡ p = ground (arith, hit, e) in rw hit (rw same c, h)
  | inr miss ↦ rw miss (hq, IsConsistent-change_first id change qs p (ground (arith, miss, e)) c h)
]

find-IsConsistent :
    (id : ℕ) (qs : List Question) (p : Question)
    → find (has_id id) qs ≡ some p
    → All IsConsistent qs
    → IsConsistent p
find-IsConsistent id qs p e h = All-mem IsConsistent qs h (find-mem (has_id id) qs p e).0

-- A pending question has neither an answer nor an assumption.
pending_open :
    (st : QuestionStatus) (a b : Option String) (t : Option ℕ)
    → is_pending st ≡ true
    → Fits st a b t
    → (a ≡ none) × (b ≡ none)
pending_open pending a b t h fits = (fits.0, fits.1)
pending_open answered a b t h fits = absurd (ground (arith, h))
pending_open assumed a b t h fits = absurd (ground (arith, h))

-- What the two changes have in common.
record IsResolution (change : Question → Question) : Type 0 where
  pub same_id : (q : Question) → (change q).id ≡ q.id
  pub resolves :
      (q : Question) → is_pending q.status ≡ true → IsConsistent q → IsConsistent (change q)

as_answered-IsResolution : (now : ℕ) (text : String) → IsResolution (as_answered now text)
as_answered-IsResolution now text = record {
  same_id = λ q. refl;
  resolves = λ q waits c.
      let (_, no_b) = pending_open q.status q.answer q.assumption q.answered_at waits c in
      ((λ e. cc e), no_b, (λ e. cc e));
}

as_assumed-IsResolution : (now : ℕ) (text : String) → IsResolution (as_assumed now text)
as_assumed-IsResolution now text = record {
  same_id = λ q. refl;
  resolves = λ q waits c.
      let (no_a, _) = pending_open q.status q.answer q.assumption q.answered_at waits c in
      (no_a, (λ e. cc e), (λ e. cc e));
}

resolve-IsStore :
    (disk : Disk) (id : ℕ) (change : Question → Question) (qs : List Question)
    → IsResolution change
    → IsStore qs
    → IsStore (resolve disk id change qs).0
resolve-IsStore disk id change qs r s = elim (Bool-cases disk.readable) [
  | inr closed ↦ rw closed s
  | inl readable ↦ elim (Option-cases (find (has_id id) qs)) [
    | inl absent ↦ rw (readable, absent) s
    | inr (q, e) ↦ elim (Bool-cases (is_pending q.status)) [
      | inr done ↦ rw (readable, e, done) s
      | inl waits ↦ elim (Bool-cases disk.writable) [
        | inr full ↦ rw (readable, e, waits, full) s
        | inl writable ↦
            let c = r.resolves q waits (find-IsConsistent id qs q e s.consistent) in
            rw (readable, e, waits, writable)
              (record {
                ascending = Ascend-change_first 0 id change qs r.same_id s.ascending;
                consistent = IsConsistent-change_first id change qs q e c s.consistent;
              })
      ]
    ]
  ]
]

create_question-IsStore :
    (disk : Disk) (now : ℕ) (f : String) (q : Question) (qs : List Question)
    → IsStore qs
    → IsStore (create_question disk now f q qs).0
unfolding create_question next_question_id
create_question-IsStore disk now f q qs s = elim (Bool-cases disk.readable) [
  | inr closed ↦ rw closed s
  | inl readable ↦ elim (Bool-cases disk.writable) [
    | inr full ↦ rw (readable, full) s
    | inl writable ↦
        let made = as_created now f (max_num 0 qs + 1) q in
        rw (readable, writable)
          (record {
            ascending = Ascend-append 0 qs made s.ascending (omega arith);
            consistent =
                All-append IsConsistent qs (made ∷ []) s.consistent ((refl, refl, refl), tt);
          })
  ]
]

-- Whatever the disk does, creating, answering and assuming keep the ids of the stored questions
-- ascending, so that no two are the same, and keep every question consistent: a pending one has
-- neither answer nor assumption, an answered one an answer only, an assumed one an assumption only.
pub execute-IsStore :
    (disk : Disk) (r : Request) (qs : List Question) → IsStore qs → IsStore (execute disk r qs).0
unfolding answer_question assume_question
execute-IsStore disk (create now f q) qs s = create_question-IsStore disk now f q qs s
execute-IsStore disk (answer now id text) qs s =
    resolve-IsStore disk id (as_answered now text) qs (as_answered-IsResolution now text) s
execute-IsStore disk (assume now id text) qs s =
    resolve-IsStore disk id (as_assumed now text) qs (as_assumed-IsResolution now text) s
