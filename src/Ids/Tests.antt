-- ===== src/Ids/Tests.antt =====
-- Runs of the identifier parser.
use code_rag.Common.{String, true, false, ◌≡◌, refl, arith, All}
use code_rag.Ids.{cut_colon, parse, is_known}
use code_rag.Ids.Build.{IsOf, log_template_id, built, parse-built}
use code_rag.Ids.RoundTrip.{with_kind, parse-with_kind}

symbol_runs : parse "func:src/main.go:Server.run" ≡ ("func", "src/main.go:Server.run", true)
unfolding parse cut_colon is_known
symbol_runs = refl

unknown_kind_runs : parse "function:main" ≡ ("", "function:main", false)
unfolding parse cut_colon is_known
unknown_kind_runs = refl

parse-with_kind_example : parse (with_kind "file" "a/b.go") ≡ ("file", "a/b.go", true)
unfolding is_known
parse-with_kind_example = parse-with_kind "file" "a/b.go" (omega arith) refl

-- The digest is a constant here; any function serves.
abbrev digits : String → String
digits s = "ab12"

parse-built_example :
    All IsOf (built digits "b1" "0x10" "0x14" "0x18" "t")
    × ((project template : String)
        → parse (log_template_id digits project template)
          ≡ ("", log_template_id digits project template, false))
parse-built_example = parse-built digits "b1" "0x10" "0x14" "0x18" "t"
