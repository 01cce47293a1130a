-- ===== src/Feature/Answered.antt =====
-- internal/feature/question.go: a question is answered once, and the count of those pending.
use devteam.Prelude.{
  Bool-cases, List, String, [], ap, arith, change, find, inl, inr, length, refl, some, true, ℕ, ◌+◌,
  ◌≡◌, ◌∙◌, ◌∷◌, ◌==◌, nat_eq, string_eq, text_eq,
}
use devteam.Feature.Questions.{
  Question, answered, Disk, found, refused, conflict, has_id, change_first, as_answered,
  count_pending, pending_count, list_pending_questions, get_question, answer_question,
  assume_question, is_pending,
}

find-change_first :
    (id : ℕ) (change : Question → Question) (qs : List Question) (q : Question)
    → ((p : Question) → (change p).id ≡ p.id)
    → find (has_id id) qs ≡ some q
    → find (has_id id) (change_first id change qs) ≡ some (change q)
find-change_first id change [] q same e = absurd (ground (arith, e))
find-change_first id change (p ∷ qs) q same e = elim (Bool-cases (p.id == id)) [
  | inl hit ↦
      let here : p ≡ q = ground (arith, hit, e) in
      let changed : ((change p).id == id) ≡ true = ap (λ n. n == id) (same p) ∙ hit in
      rw hit (rw changed (ap (λ x. some (change x)) here))
  | inr miss ↦ rw miss (rw miss (find-change_first id change qs q same (ground (arith, miss, e))))
]

abbrev pub works : Disk
works = record { readable = true; writable = true }

-- A pending question that is answered on a working disk is read back with the answer, and from
-- then on neither an answer nor an assumption is taken: both return the conflict and change nothing.
pub answer_question-once :
    (now later id : ℕ) (text other : String) (qs : List Question) (q : Question)
    → find (has_id id) qs ≡ some q
    → is_pending q.status ≡ true
    → let (after, r) = answer_question works now id text qs in
      (r ≡ found (as_answered now text q))
      × (get_question works id after ≡ r)
      × (answer_question works later id other after ≡ (after, refused (conflict id answered)))
      × (assume_question works later id other after ≡ (after, refused (conflict id answered)))
unfolding answer_question assume_question get_question
answer_question-once now later id text other qs q e waits =
    let kept = find-change_first id (as_answered now text) qs q (λ p. refl) e in
    rw (e, waits) (rw kept (refl, refl, refl, refl))

count_pending-length :
    (n : ℕ) (qs : List Question) → count_pending n qs ≡ n + length (list_pending_questions qs)
unfolding list_pending_questions
count_pending-length n [] = omega arith
count_pending-length n (q ∷ qs) = elim (Bool-cases (is_pending q.status)) [
  | inl waits ↦ rw waits (count_pending-length (n + 1) qs ∙ omega arith)
  | inr done ↦ rw done (count_pending-length n qs)
]

-- PendingCount is the number of the questions that ListPendingQuestions returns.
pub pending_count-length :
    (qs : List Question) → pending_count qs ≡ length (list_pending_questions qs)
unfolding pending_count
pending_count-length qs = count_pending-length 0 qs ∙ omega arith
