-- ===== src/References/Draws.antt =====
-- The loop of `generate_reference`, draw by draw.
use mathlib.Core.Bool.{false≢true}
use native.Mathlib.Numerals.{add-one}
use ldb_backend_hack.Base.{
  ℕ, zero, suc, ◌+◌, ◌≤◌, String, ◌≡◌, ◌≢◌, refl, sym, subst, ◌∙◌, true, false, starts_with, inl,
  inr, Bool-cases, arith,
}
use ldb_backend_hack.Model.{World}
use ldb_backend_hack.Action.{ok, ◌>>=◌}
use ldb_backend_hack.Action.Reads.{Reads, Reads-pure, Reads-raise, Reads-bind, Anything}
use ldb_backend_hack.Runtime.{Runtime, uuid4}
use ldb_backend_hack.References.{hex, redraw, generate_reference}

abbrev pub HasNoLeadingZero : String → Type 0
HasNoLeadingZero s = starts_with s "0" ≡ false

module _ (rt : Runtime) where
  pub uuid4-Reads : Reads Anything (uuid4 rt)
  unfolding uuid4
  uuid4-Reads = record { at = λ w. (refl, tt) }

  redraw-Reads : (fuel : ℕ) (ref : String) → Reads HasNoLeadingZero (redraw rt fuel ref)
  unfolding redraw
  redraw-Reads zero ref = elim (Bool-cases (starts_with ref "0")) [
    | inl bad ↦ rw bad (Reads-raise _)
    | inr good ↦ rw good (Reads-pure ref good)
  ]
  redraw-Reads (suc fuel) ref = elim (Bool-cases (starts_with ref "0")) [
    | inl bad ↦ rw bad (Reads-bind (uuid4 rt) _ uuid4-Reads (λ u. redraw-Reads fuel (hex u)))
    | inr good ↦ rw good (Reads-pure ref good)
  ]

  pub generate_reference-Reads : Reads HasNoLeadingZero (generate_reference rt)
  unfolding generate_reference
  generate_reference-Reads =
      Reads-bind (uuid4 rt) _ uuid4-Reads (λ u. redraw-Reads rt.rounds (hex u))

  abbrev IsGoodDraw : ℕ → Type 0
  IsGoodDraw n = HasNoLeadingZero (hex (rt.uuid n))

  redraw_again :
      (fuel i : ℕ) (w : World)
      → starts_with (hex (rt.uuid i)) "0" ≡ true
      → w.ticks ≡ suc i
      → redraw rt (suc fuel) (hex (rt.uuid i)) w
        ≡ redraw rt fuel (hex (rt.uuid (suc i))) (record w { ticks = suc (suc i) })
  unfolding redraw uuid4 ◌>>=◌
  redraw_again fuel i w bad at = rw (bad, at, add-one)

  -- From draw `i` on, with a good draw `m` in reach.
  redraw_ends :
      (fuel i m : ℕ) (w : World)
      → w.ticks ≡ suc i
      → i ≤ m
      → m ≤ i + fuel
      → IsGoodDraw m
      → (n : ℕ) × (i ≤ n)
        × (n ≤ m)
        × IsGoodDraw n
        × (redraw rt fuel (hex (rt.uuid i)) w ≡ (ok (hex (rt.uuid n)), record w { ticks = suc n }))
  unfolding redraw uuid4 ◌>>=◌
  redraw_ends zero i m w at lo hi good =
      let here : m ≡ i = omega arith in
      let good_i : IsGoodDraw i = subst IsGoodDraw here good in
      (i, omega arith, lo, good_i, rw (good_i, ← at) refl)
  redraw_ends (suc fuel) i m w at lo hi good =
      elim (Bool-cases (starts_with (hex (rt.uuid i)) "0")) [
        | inr found ↦ (i, omega arith, lo, found, rw (found, ← at) refl)
        | inl bad ↦
            let later : i ≢ m = λ e. false≢true (sym (subst IsGoodDraw (sym e) good) ∙ bad) in
            let (n, above, below, good_n, result) =
              redraw_ends fuel (suc i) m (record w { ticks = suc (suc i) }) refl (omega arith)
                (omega arith) good in
            (n, omega arith, below, good_n, redraw_again fuel i w bad at ∙ result)
      ]

  -- If draw `m` is among the next `rounds + 1` draws and has no leading zero, then
  -- `generate_reference` returns the digits of a draw that is no later and has no leading zero,
  -- it has drawn up to that one and no further, and it has changed nothing else.
  pub generate_reference_ends :
      (w : World) (m : ℕ)
      → w.ticks ≤ m
      → m ≤ w.ticks + rt.rounds
      → IsGoodDraw m
      → (n : ℕ) × (w.ticks ≤ n)
        × (n ≤ m)
        × IsGoodDraw n
        × (generate_reference rt w ≡ (ok (hex (rt.uuid n)), record w { ticks = suc n }))
  unfolding generate_reference uuid4 ◌>>=◌
  generate_reference_ends w m lo hi good =
      rw add-one
        (redraw_ends rt.rounds w.ticks m (record w { ticks = suc w.ticks }) refl lo hi good)
