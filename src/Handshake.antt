-- ===== src/Handshake.antt =====
-- handshake/modifier.go and handshake/modifier_chain.go: what data goes through on its way to the wire
-- and back, and several of these in a row.
-- A modifier is the functions that its methods compute. The chain's name and the names of its members
-- are not kept.
pub mod XorKey
pub mod Padding
pub mod SipHash
pub mod Inverse
mod Tests
use noise_ssu.Base.{
  ℕ, ◌+◌, ◌≡◌, ◌≤◌, ◌<◌, Bool, true, false, Option, none, some, List, [], ◌∷◌, length, Outcome, ok,
  err, ◌>>=◌,
}

-- handshake/constants.go: `HandshakePhase`.
pub data Phase : Type 0 where
  phase_initial phase_exchange phase_final phase_data : Phase

-- `phase > PhaseFinal`, and `phase >= PhaseData`.
pub is_after_final : Phase → Bool
is_after_final phase_data = true
is_after_final phase_initial = false
is_after_final phase_exchange = false
is_after_final phase_final = false

-- A chain's error has the index of the modifier that failed.
pub data ModifierError : Type 0 where
  modifier_closed invalid_padding data_too_large padding_random_error : ModifierError
  invalid_padded_data close_failed : ModifierError
  modifier_chain_error : ℕ → ModifierError → ModifierError

-- `HandshakeModifier`; `close` is the error of `Close`, if any.
pub record Modifier : Type 0 where
  pub modify_outbound : Phase → List ℕ → Outcome ModifierError (List ℕ)
  pub modify_inbound : Phase → List ℕ → Outcome ModifierError (List ℕ)
  pub close : Option ModifierError

pub record ModifierChain : Type 0 where
  pub modifiers : List Modifier

-- The loop of `NewModifierChain` that leaves the nil modifiers out.
pub without_nil : List (Option Modifier) → List Modifier
without_nil [] = []
without_nil (none ∷ ms) = without_nil ms
without_nil (some m ∷ ms) = m ∷ without_nil ms

pub new_modifier_chain : List (Option Modifier) → ModifierChain
unfolding without_nil
new_modifier_chain ms = record { modifiers = without_nil ms }

abbrev pub at_index : ℕ → Outcome ModifierError (List ℕ) → Outcome ModifierError (List ℕ)
at_index i (ok modified) = ok modified
at_index i (err reason) = err (modifier_chain_error i reason)

-- The loops of the two methods; the first modifier here has index `i`.
unfoldable pub outbound_from : ℕ → List Modifier → Phase → List ℕ → Outcome ModifierError (List ℕ)
outbound_from i [] phase bytes = ok bytes
outbound_from i (m ∷ ms) phase bytes = do
  modified ← at_index i (m.modify_outbound phase bytes)
  outbound_from (i + 1) ms phase modified

unfoldable pub inbound_from : ℕ → List Modifier → Phase → List ℕ → Outcome ModifierError (List ℕ)
inbound_from i [] phase bytes = ok bytes
inbound_from i (m ∷ ms) phase bytes = do
  modified ← inbound_from (i + 1) ms phase bytes
  at_index i (m.modify_inbound phase modified)

pub modify_outbound : ModifierChain → Phase → List ℕ → Outcome ModifierError (List ℕ)
modify_outbound chain phase bytes = outbound_from 0 chain.modifiers phase bytes

pub modify_inbound : ModifierChain → Phase → List ℕ → Outcome ModifierError (List ℕ)
modify_inbound chain phase bytes = inbound_from 0 chain.modifiers phase bytes

pub count : ModifierChain → ℕ
count chain = length chain.modifiers

-- `Close`: the errors that `errors.Join` joins.
pub close_each : List Modifier → List ModifierError
close_each [] = []
close_each (m ∷ ms) = let errs = close_each ms in elim m.close [ none ↦ errs | some e ↦ e ∷ errs ]

pub close : ModifierChain → List ModifierError
unfolding close_each
close chain = close_each chain.modifiers
