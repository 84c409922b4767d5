-- ===== src/Base/Texts.antt =====
-- Texts as C reads them.
use Prim.Native.String.{String}
use Prim.Native.Char.{code}
use api_gateway_gtc.Base.Tests.{nat_eq, if◌then◌else◌}

-- What a `const char*` reader sees of a `std::string`: the text before the first NUL.
unfoldable pub c_str : String → String
c_str String.[] = String.[]
c_str (String.◌∷◌ c s) =
    let rest = c_str s in if nat_eq (code c) 0 then String.[] else String.◌∷◌ c rest
