-- ===== src/Slice/Tests.antt =====
-- Runs of ComputeSlice.
use code_rag.Common.{true, none, some, [], ◌∷◌, ◌≡◌, ◌↔◌, refl, arith, pos, negsuc, ◌+ℤ◌, ◌-ℤ◌}
use code_rag.Slice.{
  SliceRequest, past_the_end, off_by_one, compute_slice, all_problems, resolve_window,
  base_problems, to_int64, add, sub,
}
use code_rag.Slice.Window.{IsSmallRequest, IsWindow, compute_slice-valid_iff}

-- buffer[37:53] of 52 elements
abbrev request : SliceRequest
request = record {
  base = "buffer";
  base_length = some (pos 52);
  offset = pos 37;
  length = some (pos 16);
  end = none;
  element_size = pos 4;
  element_type = "";
  source_reference = "";
  expression = "";
}

off_by_one_runs :
    (compute_slice request).problems
    ≡ past_the_end (pos 53) (pos 52) (pos 1) ∷ off_by_one (pos 52) (pos 53) (pos 16) ∷ []
unfolding compute_slice all_problems resolve_window base_problems add sub to_int64 ◌+ℤ◌ ◌-ℤ◌
off_by_one_runs = refl

abbrev negative : SliceRequest
negative = record request { offset = negsuc 0; length = none; end = some (pos 3) }

negative-IsSmallRequest : IsSmallRequest negative
negative-IsSmallRequest = record {
  offset = (omega arith, omega arith);
  length = λ l e. cc;
  end = λ e given. ground arith;
}

compute_slice-valid_iff_example :
    ((compute_slice negative).valid ≡ true)
    ↔ IsWindow negative (compute_slice negative).length (compute_slice negative).end
compute_slice-valid_iff_example = compute_slice-valid_iff negative negative-IsSmallRequest
