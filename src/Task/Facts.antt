-- ===== src/Task/Facts.antt =====
-- Facts carry what their kind asks for.
use Prim.Native.String.{len}
use text.Mathlib.Text.{starts_with}
use mathlib.Core.List.{append-nil, append_assoc}
use code_rag.Common.{
  ◌<◌, ap, sym, ◌∙◌, Option-cases, inl, inr, some, String, Bool, true, false, List, [], ◌∷◌, ◌++◌,
  ◌≡◌, ◌≢◌, ◌⊎◌, arith, str_eq_iff, is_blank,
}
use code_rag.Task.Types.{TaskState, TaskPatch, TaskFact}
use code_rag.Task.Result.{ok, >>=-eq-ok}
use code_rag.Task.Repo.{Repo, NodeInfo, RefStatus}
use code_rag.Task.Fields.{provenance_ok, after_evidence}
use code_rag.Task.Hypotheses.{is_invalid}
use code_rag.Ids
use code_rag.Task.Service.{load, update}
use code_rag.Task.Stages.{kind_or_inference, check_fact, add_facts}
use code_rag.Task.Inversion.{update-Applied}
use code_rag.Task.Staged.{stage_fields-Staged}
use code_rag.Task.Versions.{change_state_keeps}

-- A fact that a task can hold: it says something, a FACT came from somewhere that could be checked,
-- and an OBSERVATION names its source.
pub record IsGrounded (Checked : String → Type 0) (f : TaskFact) : Type 0 where
  pub says : is_blank f.text ≡ false
  pub kinds : (f.kind ≡ "FACT") ⊎ (f.kind ≡ "OBSERVATION") ⊎ (f.kind ≡ "INFERENCE")
  pub checked : f.kind ≡ "FACT" → Checked f.source
  pub sourced : f.kind ≡ "OBSERVATION" → f.source ≢ ""

module _ (now agent : String) where
  -- What an added fact is to the fact that it was made from.
  abbrev pub IsStamped : TaskFact → TaskFact → Type 0
  IsStamped f g =
      (g.text ≡ f.text)
      × (g.source ≡ f.source)
      × (f.kind ≡ "" → g.kind ≡ "INFERENCE")
      × (f.kind ≢ "" → g.kind ≡ f.kind)
      × (g.at ≡ now)
      × (g.by ≡ agent)

  -- One fact is added for each that is given, in order, stamped and grounded.
  abbrev pub AreAdded : (String → Type 0) → List TaskFact → List TaskFact → Type 0
  AreAdded Checked [] [] = Unit
  AreAdded Checked [] (g ∷ gs) = ⊥
  AreAdded Checked (f ∷ fs) [] = ⊥
  AreAdded Checked (f ∷ fs) (g ∷ gs) = IsStamped f g × IsGrounded Checked g × AreAdded Checked fs gs

module _ (checks : String → Bool) (now agent : String) where
  abbrev Checks : String → Type 0
  Checks s = checks s ≡ true

  check_fact-IsGrounded :
      (f g : TaskFact) → check_fact checks now agent f ≡ ok g → IsGrounded Checks g
  unfolding check_fact
  check_fact-IsGrounded f g e = ground (
    arith,
    str_eq_iff (kind_or_inference f.kind) "FACT",
    str_eq_iff (kind_or_inference f.kind) "OBSERVATION",
    str_eq_iff (kind_or_inference f.kind) "INFERENCE",
    str_eq_iff "FACT" "OBSERVATION",
    str_eq_iff "FACT" "INFERENCE",
    str_eq_iff "OBSERVATION" "INFERENCE",
    str_eq_iff f.source "",
  )

  check_fact-IsStamped :
      (f g : TaskFact) → check_fact checks now agent f ≡ ok g → IsStamped now agent f g
  unfolding check_fact kind_or_inference
  check_fact-IsStamped f g e = ground (
    arith,
    str_eq_iff f.kind "",
    str_eq_iff (kind_or_inference f.kind) "FACT",
    str_eq_iff (kind_or_inference f.kind) "OBSERVATION",
  )

  add_facts-AreAdded :
      (Checked : String → Type 0)
      → ((s : String) → Checks s → Checked s)
      → (known fs known' : List TaskFact) → add_facts checks now agent known fs ≡ ok known'
      → (added : List TaskFact) × (known' ≡ known ++ added) × AreAdded now agent Checked fs added
  unfolding add_facts
  add_facts-AreAdded Checked c known [] known' e =
      let same : known' ≡ known = ground arith in ([], same ∙ sym (append-nil known), tt)
  add_facts-AreAdded Checked c known (f ∷ fs) known' e =
      let (g, checked, rest) = >>=-eq-ok (check_fact checks now agent f) _ e in
      let v = check_fact-IsGrounded f g checked in
      let v' : IsGrounded Checked g = record {
        says = v.says;
        kinds = v.kinds;
        checked = λ q. c g.source (v.checked q);
        sourced = v.sourced;
      } in
      let (gs, same, h) = add_facts-AreAdded Checked c (known ++ g ∷ []) fs known' rest in
      (g ∷ gs, same ∙ append_assoc known (g ∷ []) gs, (check_fact-IsStamped f g checked, v', h))

-- Where a FACT can come from: a node of the graph that is in the project; a place in the graph or a tool,
-- by a source of more than five bytes; or an identifier of a known kind that the resolver does not
-- call invalid.
abbrev pub HasProvenance : (R : Repo) → R.World → String → String → Type 0
HasProvenance R w project source =
    ((starts_with source "evidence:" ≡ true)
      × ((n : NodeInfo) × (R.get_node w (after_evidence source) ≡ some n)
          × (n.project_id ≡ project)))
    ⊎ (((starts_with source "graph:" ≡ true) ⊎ (starts_with source "tool:" ≡ true))
        × (5 < len source))
    ⊎ ((Ids.looks source ≡ true) × (R.resolve w project source ≢ RefStatus.invalid))

provenance_ok-HasProvenance :
    (R : Repo) (w : R.World) (project source : String)
    → provenance_ok R w project source ≡ true
    → HasProvenance R w project source
unfolding provenance_ok is_invalid
provenance_ok-HasProvenance R w project source e =
    elim (Option-cases (R.get_node w (after_evidence source))) [
      | inl absent ↦ ground arith
      | inr (n, there) ↦ ground (arith, str_eq_iff n.project_id project)
    ]

-- A successful update adds to the facts of the task one for each that the patch gives, in order, and leaves
-- the others: an added fact has the text and the source that were given, the given kind or INFERENCE,
-- and the time and agent of the update. Its text is not blank and its kind is one of the three; an
-- OBSERVATION names a source; and the source of a FACT names, in the world that the update started from,
-- by "evidence:" a node of the project, by "graph:" or "tool:" anything in more than five bytes, or it
-- is an identifier of a known kind that does not resolve to INVALID.
pub update-IsGrounded :
    (R : Repo) (project task agent now : String) (p : TaskPatch) (w w' : R.World)
    (ts ts' : TaskState)
    → load R project task w ≡ (ok ts, w)
    → update R project task agent now p w ≡ (ok ts', w')
    → (added : List TaskFact) × (ts'.known_facts ≡ ts.known_facts ++ added)
      × AreAdded now agent (HasProvenance R w project) p.add_facts added
update-IsGrounded R project task agent now p w w' ts ts' l e =
    let (u, loaded, a) = update-Applied R project agent now p task w w' ts' e in
    let s = stage_fields-Staged R project agent now p w u a.staged a.stages in
    let k = change_state_keeps p.state p.state_reason now agent _ _ a.moves in
    let after : ts'.known_facts ≡ a.staged.known_facts = ground arith in
    let same : u ≡ ts = ground arith in
    let (added, grown, h) =
      add_facts-AreAdded (provenance_ok R w project) now agent (HasProvenance R w project)
        (provenance_ok-HasProvenance R w project) u.known_facts p.add_facts a.staged.known_facts
        s.facts in
    (added, after ∙ grown ∙ ap (λ t. t.known_facts ++ added) same, h)
