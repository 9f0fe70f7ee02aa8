-- ===== src/Template/Requests.antt =====
-- Extrinsics to the pallet of pallets/template/src/lib.rs, one after another, as `decl_module!`
-- dispatches them.
use e2_chain.Base.{ℕ, List, [], ◌∷◌, none}
use e2_chain.Frame.{System, DispatchError}
use e2_chain.Template.{Error, State, Call, do_something, cause_error}

-- The pallet's `enum Call`.
pub data Request : Type 0 where
  does_something : ℕ → Request
  causes_error : Request

module _ (T : System) (from_error : Error → DispatchError) where
  open T use {Origin}

  abbrev pub genesis : State T
  genesis = record { something = none; events = [] }

  unfoldable pub dispatch : Origin → Request → Call T from_error
  dispatch o (does_something n) = do_something T from_error o n
  dispatch o causes_error = cause_error T from_error o

  -- The state after a sequence of extrinsics; a failed one leaves what it wrote.
  unfoldable pub run : List (Origin × Request) → State T → State T
  run [] s = s
  run ((o, r) ∷ rs) s = run rs (dispatch o r s).1
