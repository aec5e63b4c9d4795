-- ===== src/Tests/ServiceTests.antt =====
-- src/service_cmd.c on single MACs.
use softgre.Shared.{◌≡◌, refl, ◌∷◌, [], none, some, arith}
use softgre.Payload.{Mac}
use softgre.Provision.{mac_text}
use softgre.Service.{valid_mac, valid_mac-mac_text}

abbrev phone : Mac
phone = record { m0 = 2; m1 = 0xab; m2 = 0; m3 = 255; m4 = 16; m5 = 9 }

valid_mac-mac_text_example : valid_mac (mac_text phone) ≡ some (mac_text phone)
valid_mac-mac_text_example =
    valid_mac-mac_text phone (omega arith) (omega arith) (omega arith) (omega arith) (omega arith)
      (omega arith)

short_text : valid_mac (b'0' ∷ b'2' ∷ []) ≡ none
unfolding valid_mac
short_text = refl
