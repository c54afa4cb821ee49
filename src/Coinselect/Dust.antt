-- ===== src/Coinselect/Dust.antt =====
-- The dust limits (internal/coinselect/dust.go).
use daxib.Prelude.{
  ◌+◌, Bool, false, [], ◌∷◌, ◌&&◌, ◌||◌, not, ltb, ◌==◌, if◌then◌else◌, Text, length,
}
use daxib.Prelude.Int.{ℤ, pos, ltb_ℤ}
use daxib.Prelude.Int64.{add64, mul64}
use daxib.Coinselect.{dust_threshold_p2wpkh, var_int_size}

-- IsDust
unfoldable pub is_dust : ℤ → Bool
is_dust value_sat = ltb_ℤ value_sat dust_threshold_p2wpkh

-- isWitnessProgramBytes, on the bytes of a script.
unfoldable pub is_witness_program_bytes : Text → Bool
is_witness_program_bytes [] = false
is_witness_program_bytes (op0 ∷ []) = false
is_witness_program_bytes (op0 ∷ push_len ∷ program) =
    let len = length (op0 ∷ push_len ∷ program) in
    if ltb len 4 || ltb 42 len
    then false
    else if not (op0 == 0) && (ltb op0 81 || ltb 96 op0)
    then false
    else if ltb push_len 2 || ltb 40 push_len
    then false
    else len == 2 + push_len

-- DustThresholdForScript
unfoldable pub dust_threshold_for_script : Text → ℤ
dust_threshold_for_script script =
    let out_size =
      add64 (add64 (pos 8) (var_int_size (pos (length script)))) (pos (length script)) in
    let total_size = add64 out_size (pos 41) in
    let total_size' =
      if is_witness_program_bytes script
      then add64 total_size (pos 26)
      else add64 total_size (pos 107) in
    mul64 (pos 3) total_size'
