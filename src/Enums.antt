-- ===== src/Enums.antt =====
-- internal/enums/sip_type.go.
use sfa_enduro_workflows.Base.{String, Bool, true, false}

pub data SipType : Type 0 where
  digitized_aip digitized_sip born_digital_aip born_digital_sip : SipType

-- SIPType.String
unfoldable pub type_name : SipType → String
type_name digitized_aip = "DigitizedAIP"
type_name digitized_sip = "DigitizedSIP"
type_name born_digital_aip = "BornDigitalAIP"
type_name born_digital_sip = "BornDigitalSIP"

-- `==` of the enumeration
unfoldable pub same_type : SipType → SipType → Bool
same_type digitized_aip digitized_aip = true
same_type digitized_sip digitized_sip = true
same_type born_digital_aip born_digital_aip = true
same_type born_digital_sip born_digital_sip = true
same_type _ _ = false
