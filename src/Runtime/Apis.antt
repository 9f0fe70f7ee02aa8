-- ===== src/Runtime/Apis.antt =====
-- The `GrandpaApi` of runtime/src/lib.rs, as far as it computes something: how a proof that a key
-- belongs to an authority gets out of the runtime, and back into it with a report of an equivocation.
use e2_chain.Base.{ℕ, Option, none, some, List}
use e2_chain.Frame.{Ok}

-- What the API calls: `Historical::prove`, the codec, and
-- `Grandpa::submit_unsigned_equivocation_report`.
pub record Reporting : Type 1 where
  pub KeyTypeId : Type 0
  pub GrandpaId : Type 0
  pub Proof : Type 0
  pub EquivocationProof : Type 0
  pub key_type : KeyTypeId
  pub prove : KeyTypeId × GrandpaId → Option Proof
  pub encode : Proof → List ℕ
  pub decode : List ℕ → Option Proof
  pub submit_unsigned_equivocation_report : EquivocationProof → Proof → Option Ok

-- `OpaqueKeyOwnershipProof`
pub record OpaqueKeyOwnershipProof : Type 0 where
  pub bytes : List ℕ

module _ (G : Reporting) where
  open G use {GrandpaId, EquivocationProof}

  unfoldable pub generate_key_ownership_proof : ℕ → GrandpaId → Option OpaqueKeyOwnershipProof
  generate_key_ownership_proof set_id authority_id = elim (G.prove (G.key_type, authority_id)) [
    | none ↦ none
    | some p ↦ some (record { bytes = G.encode p })
  ]

  unfoldable pub submit_report_equivocation_unsigned_extrinsic :
      EquivocationProof → OpaqueKeyOwnershipProof → Option Ok
  submit_report_equivocation_unsigned_extrinsic equivocation_proof key_owner_proof =
      elim (G.decode key_owner_proof.bytes) [
        | none ↦ none
        | some p ↦ G.submit_unsigned_equivocation_report equivocation_proof p
      ]
