-- ===== src/Ctxstore/Tests.antt =====
-- Runs of the digests.
use code_rag.Common.{
  pos, String, Bool, Remaining, map, true, false, some, List, [], ◌∷◌, ◌≡◌, refl, is_space, sort_by,
  str_mem,
}
use code_rag.Ctxstore.Records.{
  Record, estimate_tokens, byte_length, utf8_width, pack, pack_lines, record_line, short_body,
  split_spaces, add_field, join_spaces, rune_count, group, preference_lines,
}
use code_rag.Ctxstore.Digest.{
  session_digest, session_lines, prompt_digest, candidates, lines_of, ids_at,
}
use code_rag.Ctxstore.Shown.{session_digest_lem, prompt_digest_lem, AreLines, IsDigest, IsNew}
use code_rag.Ctxstore.Packed.{picked}

abbrev rule : Record
rule = record {
  id = "m1";
  kind = "decision";
  title = "Use BM25";
  body = "for  search";
  source = "manual";
  pinned = true;
  created_at = "2026";
  score = pos 0;
}

abbrev remark : Record
remark = record rule { id = "m2"; kind = "note"; title = "Later"; body = ""; pinned = false }

abbrev shown : List String
shown = "m2" ∷ []

record_line_runs : record_line rule ≡ "- [decision] Use BM25: for search\n"
unfolding record_line short_body rune_count join_spaces add_field split_spaces is_space
record_line_runs = refl

abbrev session_text : String
session_text = "Project context (codergag):\n- [note] Later\n"

abbrev prompt_text : String
prompt_text = "Relevant project context (codergag):\n- [note] Later\n"

session_runs : session_digest (some (rule ∷ remark ∷ [])) (pos 12) [] "" ≡ some session_text
unfolding session_digest session_lines preference_lines sort_by group pack pack_lines
    estimate_tokens byte_length utf8_width record_line short_body rune_count join_spaces add_field
    split_spaces is_space
session_runs = refl

session_digest_lem_example :
    (lines : List String) × AreLines (rule ∷ remark ∷ []) [] "" lines
    × ((flags : List Bool) × IsDigest "Project context (codergag):\n"
          (pos 12)
          lines
          session_text
          flags)
session_digest_lem_example =
    session_digest_lem (rule ∷ remark ∷ []) (pos 12) [] "" session_text session_runs

prompt_runs : prompt_digest (some (rule ∷ remark ∷ [])) (pos 40) [] ≡ some (prompt_text, shown)
unfolding prompt_digest candidates lines_of ids_at str_mem pack pack_lines estimate_tokens
    byte_length utf8_width record_line short_body rune_count join_spaces add_field split_spaces
    is_space
prompt_runs = refl

prompt_digest_lem_example :
    (new : List Record) × Remaining (IsNew []) (rule ∷ remark ∷ []) new
    × ((flags : List Bool) × IsDigest "Relevant project context (codergag):\n"
          (pos 40)
          (map record_line new)
          prompt_text
          flags
        × (shown ≡ map (λ r. r.id) (picked new flags)))
prompt_digest_lem_example =
    prompt_digest_lem (rule ∷ remark ∷ []) (pos 40) [] shown prompt_text prompt_runs
