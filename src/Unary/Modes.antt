-- ===== src/Unary/Modes.antt =====
-- The modes of the parameters that `Resolve` sends.
use api_gateway_gtc.Base.{◌≢◌}
use api_gateway_gtc.Ifr.{
  ParameterMode, param_in, param_out, param_inout, ParameterDescription, mode_of, to_param_info,
}
use api_gateway_gtc.Unary.{
  ProtoMode, mode_in, mode_out, mode_inout, cast_mode, mode_number, proto_mode, param_message,
  Runtime,
}

-- The mode of the message that means what the repository's mode means.
abbrev pub meant : ParameterMode → ProtoMode
meant param_in = mode_in
meant param_out = mode_out
meant param_inout = mode_inout

module _ {Ctx Obj Any TypeCode Contained InterfaceDef Double Float : Type 0}
    (runtime : Runtime Ctx Obj Any TypeCode Contained InterfaceDef Double Float) where
  -- The mode that `Resolve` sends for a parameter is never the one that the repository gives.
  pub param_modes_shifted :
      (p : ParameterDescription TypeCode)
      → (param_message runtime (to_param_info p)).mode ≢ meant p.mode
  unfolding param_message to_param_info mode_of cast_mode mode_number proto_mode
  param_modes_shifted p = by p.mode
    where
      by : (m : ParameterMode) → cast_mode (mode_of m) ≢ meant m
      by param_in h = cc
      by param_out h = cc
      by param_inout h = cc
