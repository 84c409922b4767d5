-- ===== src/Unary/Messages.antt =====
-- The messages of src/server/proto/unary.proto, and the cast to its `Mode` in src/server/unary_server.cpp.
use api_gateway_gtc.Base.{ℕ, String, Option, List, if◌then◌else◌, nat_eq}
use api_gateway_gtc.Ifr.{Mode, in_mode, out_mode, inout_mode, unspecified_mode}
use api_gateway_gtc.Adapter.Any.{AnyValue, TypeKind}

-- `gateway::Mode`.
pub data ProtoMode : Type 0 where
  mode_unspecified mode_in mode_out mode_inout : ProtoMode
  mode_other : ℕ → ProtoMode

-- `static_cast<gateway::Mode>(param.mode)`: the numbers of the two enumerations.
unfoldable pub mode_number : Mode → ℕ
mode_number in_mode = 0
mode_number out_mode = 1
mode_number inout_mode = 2
mode_number unspecified_mode = 3

unfoldable pub proto_mode : ℕ → ProtoMode
proto_mode n =
    if nat_eq n 0
    then mode_unspecified
    else if nat_eq n 1
    then mode_in
    else if nat_eq n 2
    then mode_out
    else if nat_eq n 3
    then mode_inout
    else mode_other n

unfoldable pub cast_mode : Mode → ProtoMode
unfolding mode_number proto_mode
cast_mode mode = proto_mode (mode_number mode)

-- The messages `Param`, `Method` and `ComponentInfo`.
pub record Param : Type 0 where
  pub name : String
  pub type_code : TypeKind
  pub mode : ProtoMode

pub record Method : Type 0 where
  pub name : String
  pub result_type_code : TypeKind
  pub params : List Param

pub record ComponentInfo : Type 0 where
  pub component_name : String
  pub methods : List Method

-- The message `InvokeResponse`.
pub record InvokeResponse (Double Float : Type 0) : Type 0 where
  pub return_value : Option (AnyValue Double Float)
  pub out_args : List (AnyValue Double Float)

-- The message `NamingEntry`.
pub record NamingEntry : Type 0 where
  pub name : String
  pub path : String
  pub ior : String
