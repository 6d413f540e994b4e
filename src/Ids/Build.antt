-- ===== src/Ids/Build.antt =====
-- The builders of internal/ids/ids.go and runtime.go. Each puts its kind in front of its parts, with colons
-- between, or of a digest of them: the hex digits of the first 12 bytes of SHA-256, a parameter.
use Prim.Native.String.{◌++◌ as str_append}
use Prim.Native.Char.{code}
use code_rag.Common.{
  Bool, not, ◌&&◌, ◌==◌, map, String, true, false, List, [], ◌∷◌, ◌≡◌, refl, arith, All,
}
use code_rag.Ids.{parse, is_known}
use code_rag.Ids.RoundTrip.{NoColon, with_kind, cut_colon-with_kind, parse-with_kind}

-- a + ":" + b
abbrev pub colon : String → String → String
colon a b = with_kind a b

abbrev pub symbol : String → String → String → String
symbol kind rel label = colon kind (colon rel label)

abbrev pub file_id : String → String
file_id rel = colon "file" rel

abbrev pub binary_id : String → String
binary_id id = colon "binary" id

abbrev pub bin_func_id : String → String → String
bin_func_id binary addr = colon "binfunc" (colon binary addr)

abbrev pub basic_block_id : String → String → String → String
basic_block_id binary fn bb = colon "bb" (colon binary (colon fn bb))

abbrev pub instruction_id : String → String → String → String → String
instruction_id binary fn bb insn = colon "insn" (colon binary (colon fn (colon bb insn)))

abbrev pub bin_module_id : String → String → String
bin_module_id binary name = colon "binmodule" (colon binary name)

abbrev pub bin_section_id : String → String → String
bin_section_id binary name = colon "binsection" (colon binary name)

abbrev pub bin_global_id : String → String → String
bin_global_id binary addr = colon "binglobal" (colon binary addr)

abbrev pub bin_import_id : String → String → String
bin_import_id binary name = colon "binimport" (colon binary name)

abbrev pub bin_export_id : String → String → String
bin_export_id binary name = colon "binexport" (colon binary name)

abbrev pub bin_symbol_id : String → String → String
bin_symbol_id binary addr = colon "binsymbol" (colon binary addr)

abbrev pub bin_type_id : String → String → String
bin_type_id binary name = colon "bintype" (colon binary name)

abbrev pub bin_register_id : String → String → String
bin_register_id binary name = colon "binregister" (colon binary name)

abbrev pub bin_mem_loc_id : String → String → String
bin_mem_loc_id binary addr = colon "binmemloc" (colon binary addr)

abbrev pub bin_constant_id : String → String → String
bin_constant_id binary value = colon "binconst" (colon binary value)

abbrev pub bin_call_site_id : String → String → String → String
bin_call_site_id binary fn insn = colon "bincallsite" (colon binary (colon fn insn))

abbrev pub bin_jump_id : String → String → String → String
bin_jump_id binary from to = colon "binjump" (colon binary (colon from to))

abbrev pub bin_data_flow_id : String → String → String → String
bin_data_flow_id binary fn name = colon "bindataflow" (colon binary (colon fn name))

abbrev pub bin_control_flow_id : String → String → String
bin_control_flow_id binary fn = colon "bincontrolflow" (colon binary fn)

abbrev pub bin_external_api_id : String → String → String
bin_external_api_id binary name = colon "binextapi" (colon binary name)

abbrev pub bin_artifact_id : String → String → String → String
bin_artifact_id binary kind name = colon "binartifact" (colon binary (colon kind name))

abbrev pub bin_hypothesis_id : String → String → String → String
bin_hypothesis_id binary subject claim = colon "binhypothesis" (colon binary (colon subject claim))

abbrev pub bin_porting_map_id : String → String → String → String
bin_porting_map_id binary fn lang = colon "binportmap" (colon binary (colon fn lang))

abbrev pub bin_verification_id : String → String → String → String
bin_verification_id binary fn test = colon "binverify" (colon binary (colon fn test))

abbrev pub bin_context_package_id : String → String → String
bin_context_package_id binary query = colon "binctxpkg" (colon binary query)

-- a + "|" + b
abbrev bar : String → String → String
bar a b = str_append a (str_append "|" b)

abbrev pub observation_id : (String → String) → String → String → String → String → String → String
observation_id digest project session source stream text =
    colon "obs" (digest (bar project (bar session (bar source (bar stream text)))))

abbrev pub log_template_id : (String → String) → String → String → String
log_template_id digest project template = colon "logtemplate" (digest (bar project template))

-- An identifier is of a kind, with a rest.
abbrev pub IsOf : String × String × String → Type 0
IsOf (id, kind, rest) = parse id ≡ (kind, rest, true)

-- What the builders give for these parts, with the kind and the rest that each should have.
abbrev pub built :
    (String → String) → String → String → String → String → String → List (String × String × String)
built digest binary x y z t =
    (observation_id digest binary x y z t, "obs", digest (bar binary (bar x (bar y (bar z t)))))
    ∷ (file_id binary, "file", binary)
    ∷ (binary_id binary, "binary", binary)
    ∷ (bin_func_id binary x, "binfunc", (colon binary x))
    ∷ (basic_block_id binary x y, "bb", (colon binary (colon x y)))
    ∷ (instruction_id binary x y z, "insn", (colon binary (colon x (colon y z))))
    ∷ (bin_module_id binary x, "binmodule", (colon binary x))
    ∷ (bin_section_id binary x, "binsection", (colon binary x))
    ∷ (bin_global_id binary x, "binglobal", (colon binary x))
    ∷ (bin_import_id binary x, "binimport", (colon binary x))
    ∷ (bin_export_id binary x, "binexport", (colon binary x))
    ∷ (bin_symbol_id binary x, "binsymbol", (colon binary x))
    ∷ (bin_type_id binary x, "bintype", (colon binary x))
    ∷ (bin_register_id binary x, "binregister", (colon binary x))
    ∷ (bin_mem_loc_id binary x, "binmemloc", (colon binary x))
    ∷ (bin_constant_id binary x, "binconst", (colon binary x))
    ∷ (bin_call_site_id binary x y, "bincallsite", (colon binary (colon x y)))
    ∷ (bin_jump_id binary x y, "binjump", (colon binary (colon x y)))
    ∷ (bin_data_flow_id binary x y, "bindataflow", (colon binary (colon x y)))
    ∷ (bin_control_flow_id binary x, "bincontrolflow", (colon binary x))
    ∷ (bin_external_api_id binary x, "binextapi", (colon binary x))
    ∷ (bin_artifact_id binary x y, "binartifact", (colon binary (colon x y)))
    ∷ (bin_hypothesis_id binary x y, "binhypothesis", (colon binary (colon x y)))
    ∷ (bin_porting_map_id binary x y, "binportmap", (colon binary (colon x y)))
    ∷ (bin_verification_id binary x y, "binverify", (colon binary (colon x y)))
    ∷ (bin_context_package_id binary x, "binctxpkg", (colon binary x))
    ∷ []

no_colon : String → Bool
no_colon String.[] = true
no_colon (String.◌∷◌ c s) = not (code c == b':') && no_colon s

no_colon-NoColon : (s : String) → no_colon s ≡ true → NoColon s
unfolding no_colon
no_colon-NoColon String.[] e = tt
no_colon-NoColon (String.◌∷◌ c s) e =
    (λ colon_here. ground arith, no_colon-NoColon s (ground arith))

-- The kinds are known, and have no colon.
good_kinds : List (String × String) → Bool
good_kinds [] = true
good_kinds ((kind, rest) ∷ parts) = no_colon kind && is_known kind && good_kinds parts

both_true : (a b c : Bool) → (a && b && c) ≡ true → (a ≡ true) × (b ≡ true) × (c ≡ true)
both_true a b c e = ground arith

good_kinds-IsOf :
    (parts : List (String × String))
    → good_kinds parts ≡ true
    → All IsOf (map (λ p. (colon p.0 p.1, p.0, p.1)) parts)
unfolding good_kinds
good_kinds-IsOf [] e = tt
good_kinds-IsOf ((kind, rest) ∷ parts) e =
    let (no_colons, is, more) = both_true (no_colon kind) (is_known kind) (good_kinds parts) e in
    (parse-with_kind kind rest (no_colon-NoColon kind no_colons) is, good_kinds-IsOf parts more)

refused :
    (digest : String → String) (project template : String)
    → parse (log_template_id digest project template)
      ≡ ("", log_template_id digest project template, false)
unfolding parse is_known
refused digest project template =
    rw (cut_colon-with_kind "logtemplate" (digest (bar project template)) (omega arith), parse) refl

-- Every builder of internal/ids/ids.go but Symbol, whose kind is an argument, gives an identifier that
-- Parse splits into the builder's kind and its parts joined by colons, for any parts; ObservationID gives
-- one that Parse splits into "obs" and the digest; and Parse refuses what LogTemplateID gives, whose
-- kind is not known.
pub parse-built :
    (digest : String → String) (binary x y z t : String)
    → All IsOf (built digest binary x y z t)
      × ((project template : String)
          → parse (log_template_id digest project template)
            ≡ ("", log_template_id digest project template, false))
unfolding good_kinds no_colon is_known
parse-built digest binary x y z t = (
  good_kinds-IsOf (map (λ b. (b.1, b.2)) (built digest binary x y z t)) refl,
  λ project template. refused digest project template,
)
