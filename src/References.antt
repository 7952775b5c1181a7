-- ===== src/References.antt =====
-- `generate_reference` of app/utils/references.py
pub mod Draws
use ldb_backend_hack.Base.{
  ℕ, zero, suc, ◌-◌, ◌/◌, ◌%◌, String, ◌<>◌, starts_with, ltb, if◌then◌else◌,
}
use ldb_backend_hack.Action.{Action, raise, draws_exhausted, ◌>>=◌, pure}
use ldb_backend_hack.Runtime.{Runtime, uuid4}

abbrev hex_letter : ℕ → String
hex_letter zero = "a"
hex_letter (suc zero) = "b"
hex_letter (suc (suc zero)) = "c"
hex_letter (suc (suc (suc zero))) = "d"
hex_letter (suc (suc (suc (suc zero)))) = "e"
hex_letter _ = "f"

abbrev hex_numeral : ℕ → String
hex_numeral zero = "0"
hex_numeral (suc zero) = "1"
hex_numeral (suc (suc zero)) = "2"
hex_numeral (suc (suc (suc zero))) = "3"
hex_numeral (suc (suc (suc (suc zero)))) = "4"
hex_numeral (suc (suc (suc (suc (suc zero))))) = "5"
hex_numeral (suc (suc (suc (suc (suc (suc zero)))))) = "6"
hex_numeral (suc (suc (suc (suc (suc (suc (suc zero))))))) = "7"
hex_numeral (suc (suc (suc (suc (suc (suc (suc (suc zero)))))))) = "8"
hex_numeral _ = "9"

hex_digit : ℕ → String
hex_digit d = if ltb d 10 then hex_numeral d else hex_letter (d - 10)

-- The last `k` hexadecimal digits.
hex_digits : ℕ → ℕ → String
unfolding hex_digit
hex_digits zero n = ""
hex_digits (suc k) n = hex_digits k (n / 16) <> hex_digit (n % 16)

-- `uuid.hex`: 32 lower-case digits.
unfoldable pub hex : ℕ → String
unfolding hex_digits
hex = hex_digits 32

module _ (rt : Runtime) where
  -- The `while` loop with the current draw; at most that many further draws.
  unfoldable pub redraw : ℕ → String → Action String
  redraw zero ref = if starts_with ref "0" then raise draws_exhausted else pure ref
  redraw (suc fuel) ref =
      let again = (do u ← uuid4 rt; redraw fuel (hex u)) in
      if starts_with ref "0" then again else pure ref

  unfoldable pub generate_reference : Action String
  generate_reference = do u ← uuid4 rt; redraw rt.rounds (hex u)
