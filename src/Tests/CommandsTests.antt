-- ===== src/Tests/CommandsTests.antt =====
-- src/service_cmd.c on the state with one client.
use softgre.Shared.{◌≡◌, refl, [], ◌∷◌, some, arith, length-replicate, replicate, Returns}
use softgre.Provision.{mac_text}
use softgre.Compat.{codes}
use softgre.Compat.StrBuf.{StrBuf, Allocator, strbuf_append_len}
use softgre.Compat.StrBuf.Holds.{Holds, strbuf_append_len-Holds}
use softgre.Service.Commands.{Site, tokens, sort_macs, service_command}
use softgre.Service.Commands.Answers.{Answered, service_command-Answered}
use softgre.Service.Commands.Located.{gtmc_of, Located, service_command-Located}
use softgre.Tests.Fixtures.{tunnels_ops, index_ops, macs_ops, quiet_host, client, busy, busy-Owned}

abbrev pub memory : Allocator
memory = record { bytes = λ n. replicate n 7; length-bytes = λ n. length-replicate n 7 }

abbrev pub here : Site
here = record {
  inet_pton = λ text. some 0x0a000002;
  inet_ntop = λ addr. codes "10.0.0.2";
  tunnel_prefix = codes "sgre";
  package_version = codes "2.0";
  sysname = codes "Linux";
  release = codes "6.1";
  version = codes "1";
  machine = codes "arm";
  uptime = 90;
  started_time = 100;
}

-- A full buffer, which has to grow.
abbrev full : StrBuf
full = record { str = b'a' ∷ b'b' ∷ 0 ∷ []; len = 2; cap = 3 }

strbuf_append_len-Holds_example :
    Returns (strbuf_append_len memory full (codes "cd")) (Holds (codes "abcd"))
strbuf_append_len-Holds_example =
    strbuf_append_len-Holds memory (codes "ab") (codes "cd") full
      (record { tail = []; layout = refl; ends = refl; allocated = refl })

service_command-Answered_example :
    Returns (service_command memory here busy (codes "LMIP 10.0.0.2\r\n")) Answered
service_command-Answered_example =
    service_command-Answered memory here busy busy-Owned (codes "LMIP 10.0.0.2\r\n")

service_command-Located_example :
    Returns
      (service_command memory here busy (gtmc_of client))
      (Located memory here busy (mac_text client))
service_command-Located_example =
    service_command-Located memory here busy client busy-Owned (record {
      b0 = omega arith;
      b1 = omega arith;
      b2 = omega arith;
      b3 = omega arith;
      b4 = omega arith;
      b5 = omega arith;
    })

words : tokens (codes " GTMC\t x\r\n") ≡ codes "GTMC" ∷ codes "x" ∷ []
unfolding tokens
words = refl

sorted :
    sort_macs (codes "b" ∷ codes "ab" ∷ codes "a" ∷ []) ≡ codes "a" ∷ codes "ab" ∷ codes "b" ∷ []
unfolding sort_macs
sorted = refl
