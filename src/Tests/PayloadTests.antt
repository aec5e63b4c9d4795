-- ===== src/Tests/PayloadTests.antt =====
-- src/payload.c on one frame: a client's frame under VLAN 100 from 10.0.0.2 to 10.0.0.1.
use softgre.Shared.{◌≡◌, refl, some, ok}
use softgre.Payload.{
  PayloadPacket, payload_parse, skip_tags, bad_header, parse_ip, parse_gre, parse_inner, read8,
  read16, read32, read_mac,
}
use softgre.Payload.Safe.{reference, payload_parse-reference}
use softgre.Payload.Accepted.{Carries, payload_parse-Carries}
use softgre.Shared.{get_elem?}
use softgre.Tests.Fixtures.{client_frame}

abbrev carried : PayloadPacket
carried = record {
  remote = 0x0a000002;
  local = 0x0a000001;
  mac = record { m0 = 2; m1 = 0; m2 = 0; m3 = 0; m4 = 0; m5 = 1 };
  vlan = 100;
}

frame_parses : payload_parse client_frame ≡ ok (some carried)
unfolding payload_parse skip_tags bad_header parse_ip parse_gre parse_inner read8 read16 read32
    read_mac get_elem?
frame_parses = refl

payload_parse-reference_example : payload_parse client_frame ≡ ok (reference client_frame)
payload_parse-reference_example = payload_parse-reference client_frame

payload_parse-Carries_example : Carries client_frame carried
payload_parse-Carries_example = payload_parse-Carries client_frame carried frame_parses
