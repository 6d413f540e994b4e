-- ===== src/Task/Steps.antt =====
-- The plan of a task: its steps are pending or completed, each as often as it was planned.
use mathlib.Core.List.{Perm, perm_append_singleton, append_assoc}
use mathlib.Core.List.Perm
use code_rag.Common.{
  ℕ, suc, String, some, List, [], ◌∷◌, ◌++◌, ◌≡◌, arith, str_eq, str_eq_iff, Bool-cases,
  Option-cases, inl, inr,
}
use code_rag.Task.Result.{ok}
use code_rag.Task.Stages.{index_of, remove_at, complete_steps}

index_of-perm :
    (l : List String) (s : String) (i : ℕ) → index_of l s ≡ some i → Perm l (s ∷ remove_at i l)
unfolding index_of remove_at
index_of-perm [] s i e = cc
index_of-perm (x ∷ l) s i e = elim (Bool-cases (str_eq x s)) [
  | inl hit ↦
      let here : 0 ≡ i = ground arith in rw (← here) (Perm.cons' ((str_eq_iff x s).0 hit) Perm.rfl)
  | inr miss ↦ elim (Option-cases (index_of l s)) [
    | inl none_left ↦ absurd (ground arith)
    | inr (j, found) ↦
        let there : suc j ≡ i = ground arith in
        rw (← there) (Perm.trans (Perm.cons x (index_of-perm l s j found)) (Perm.swap s x _))
  ]
]

moved_perm :
    (l : List String) (s : String) (i : ℕ) (completed : List String)
    → index_of l s ≡ some i
    → Perm (l ++ completed) (remove_at i l ++ (completed ++ s ∷ []))
moved_perm l s i completed e = Perm.trans (Perm.append_right completed (index_of-perm l s i e)) (
    Perm.trans (Perm.symm (perm_append_singleton s (remove_at i l ++ completed)))
      (rw (append_assoc (remove_at i l) completed (s ∷ [])) Perm.rfl))

-- Completing steps moves them: none is lost, and none is made up.
pub complete_steps-perm :
    (pending completed steps : List String) {pending' completed' : List String}
    → complete_steps pending completed steps ≡ ok (pending', completed')
    → Perm (pending ++ completed) (pending' ++ completed')
unfolding complete_steps
complete_steps-perm pending completed [] {pending'} {completed'} e =
    let (p, c) : (pending ≡ pending') × (completed ≡ completed') = ground arith in
    rw (p, c) Perm.rfl
complete_steps-perm pending completed (s ∷ steps) {pending'} {completed'} e =
    elim (Option-cases (index_of pending s)) [
      | inl missing ↦ absurd (ground arith)
      | inr (i, found) ↦ Perm.trans (moved_perm pending s i completed found) (
          complete_steps-perm (remove_at i pending) (completed ++ s ∷ []) steps
            {pending' = pending'} {completed' = completed'} (ground arith))
    ]
