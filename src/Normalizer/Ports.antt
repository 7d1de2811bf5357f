-- ===== src/Normalizer/Ports.antt =====
-- The ports that `parse_strict_port` of src/normalizer.py accepts.
use clash_config_gen.Prelude.{
  ℕ, ◌≤◌, String, ◌≡◌, refl, sym, ap, ◌∙◌, inl, inr, false, ◌&&◌, arith, ◌==◌, eq_iff, leb, le→leb,
  Bool-cases,
}
use clash_config_gen.Prelude.Int.{ℤ, pos, negsuc, text_of_nat}
use clash_config_gen.Prelude.Text.{is_empty, decimal_from}
use clash_config_gen.Prelude.Decimal.{
  text_of_nat-all_chars, text_of_nat-is_empty, decimal_from-text_of_nat,
}
use clash_config_gen.Value.{Value, null, boolean, integer, real, text, array, table}
use clash_config_gen.Normalizer.{is_decimal, port_in_range, parse_strict_port}

filled_text : (s : String) → is_empty s ≡ false → (s == "") ≡ false
filled_text s h = elim (Bool-cases (s == "")) [
  | inl e ↦ let q : s ≡ "" = (eq_iff s "").0 e in absurd (ground (arith, h, ap is_empty q))
  | inr e ↦ e
]

-- What `str` writes of a port is read as that port.
pub parse_strict_port-text_of_nat :
    (label : String) (n : ℕ)
    → 1 ≤ n
    → n ≤ 65535
    → parse_strict_port label (text (text_of_nat n)) ≡ inr n
unfolding parse_strict_port is_decimal
parse_strict_port-text_of_nat label n low high =
    rw
      (
        filled_text (text_of_nat n) (text_of_nat-is_empty n),
        text_of_nat-all_chars n,
        decimal_from-text_of_nat n,
        le→leb 1 n low,
        le→leb n 65535 high,
      )
      refl

port_in_range_lem :
    (label : String) (z : ℤ) (n : ℕ) → port_in_range label z ≡ inr n → (1 ≤ n) × (n ≤ 65535)
port_in_range_lem label (pos k) n e = elim (Bool-cases (leb 1 k && leb k 65535)) [
  | inl h ↦ ground (arith, e, h)
  | inr h ↦ absurd (ground (arith, e, h))
]
port_in_range_lem label (negsuc k) n e = absurd (ground (arith, e))

-- What it accepts is a port.
pub parse_strict_port_lem :
    (label : String) (v : Value) (n : ℕ) → parse_strict_port label v ≡ inr n → (1 ≤ n) × (n ≤ 65535)
unfolding parse_strict_port
parse_strict_port_lem label null n e = absurd (ground (arith, e))
parse_strict_port_lem label (boolean b) n e = absurd (ground (arith, e))
parse_strict_port_lem label (integer z) n e = port_in_range_lem label z n e
parse_strict_port_lem label (real s z) n e = absurd (ground (arith, e))
parse_strict_port_lem label (text s) n e = elim (Bool-cases (is_decimal s)) [
  | inl h ↦
      port_in_range_lem label (pos (decimal_from 0 s)) n (sym (rw (h, parse_strict_port) refl) ∙ e)
  | inr h ↦ absurd (ground (arith, e, h))
]
parse_strict_port_lem label (array vs) n e = absurd (ground (arith, e))
parse_strict_port_lem label (table fs) n e = absurd (ground (arith, e))
