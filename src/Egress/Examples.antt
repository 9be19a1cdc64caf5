-- ===== src/Egress/Examples.antt =====
-- Routes at concrete inputs.
use devin2proxy.Prelude.{
  ℕ, zero, suc, ◌≡◌, ◌≢◌, refl, true, false, Option, none, some, [], ◌∷◌, ◌++◌, Bytes, codes,
  get_elem?, arith, trim,
}
use devin2proxy.Errors.{GoError}
use devin2proxy.Egress.Specs.{strip_egress_credentials, credential_mask, routes_from_file}
use devin2proxy.Egress.Routes.{
  Egress, EgressPool, Url, failed, bad_port, new_egress_pool, next, report, index_of, is_broken,
}
use devin2proxy.Egress.Socks.{Resolver, ok, socks5_handshake, target_request}
use devin2proxy.Egress.Masking.{strip_egress_credentials-masked}
use devin2proxy.Egress.Rotation.{IsRouted, next-report}
use devin2proxy.Egress.Handshake.{four, reply_to, letting_in, introduction, socks5_handshake-ok}

strip_egress_credentials-masked_example :
    strip_egress_credentials
      (codes "socks5" ++ (codes "://" ++ ((codes "u:p@q" ++ (b'@' ∷ codes "h:1")) ++ codes "/x@y")))
    ≡ (codes "socks5" ++ codes "://") ++ (credential_mask ++ (b'@' ∷ (codes "h:1" ++ codes "/x@y")))
strip_egress_credentials-masked_example =
    strip_egress_credentials-masked (codes "socks5") (codes "u:p@q") (codes "h:1") (codes "/x@y")
      (refl, (refl, (refl, (refl, (refl, (refl, tt)))))) (refl, (refl, (refl, (refl, (refl, tt)))))
      (refl, (refl, (refl, tt))) (refl, (refl, (refl, tt))) refl

-- A slash in a password ends the authority before the "@", so nothing is masked.
slash_in_password : strip_egress_credentials (codes "http://u:p/q@h:1") ≡ codes "http://u:p/q@h:1"
unfolding strip_egress_credentials
slash_in_password = refl

listed_routes : routes_from_file (codes "a # x\n\n#c\nb") ≡ codes "a" ∷ codes "b" ∷ []
unfolding routes_from_file
listed_routes = refl

abbrev parsed : Bytes → Option Url
parsed spec = some (record { scheme = codes "http"; host = codes "h:99999"; port = codes "99999" })

port_refused :
    new_egress_pool parsed (codes "# none" ∷ codes "http://h:99999" ∷ [])
    ≡ failed (bad_port (codes "http://h:99999"))
unfolding new_egress_pool trim
port_refused = refl

abbrev two_routes : EgressPool
two_routes = record {
  list = record { address = 0; label = [] } ∷ record { address = 1; label = [] } ∷ [];
  specs = [];
  rot = record { next = 0; cooling = 0 ∷ 0 ∷ [] };
  last = none;
}

abbrev first_route : Egress
first_route = record { address = 0; label = [] }

abbrev dead : GoError
dead = record {
  canceled = false;
  deadline_exceeded = false;
  os_deadline_exceeded = false;
  eof = false;
  http = none;
  connect = none;
  egress = some (record { broken = true });
}

two_routes-distinct :
    (i j : ℕ) (e f : Egress)
    → get_elem? two_routes.list i ≡ some e
    → get_elem? two_routes.list j ≡ some f
    → e.address ≡ f.address
    → i ≡ j
two_routes-distinct zero zero e f p q h = refl
two_routes-distinct zero (suc zero) e f p q h = ground (arith, p, q, h)
two_routes-distinct zero (suc (suc j)) e f p q h = ground (arith, q)
two_routes-distinct (suc zero) zero e f p q h = ground (arith, p, q, h)
two_routes-distinct (suc zero) (suc zero) e f p q h = refl
two_routes-distinct (suc zero) (suc (suc j)) e f p q h = ground (arith, q)
two_routes-distinct (suc (suc i)) j e f p q h = ground (arith, p)

two_routes-IsRouted : IsRouted two_routes
two_routes-IsRouted = record { slots = refl; distinct = two_routes-distinct }

next-report_example :
    (f : Egress) × ((next (report (some two_routes) (some first_route) (some dead) 100) 200).0
      ≡ some f)
    × (f.address ≢ 0)
unfolding index_of is_broken
next-report_example =
    next-report two_routes two_routes-IsRouted first_route dead 100 200 0 refl refl (omega arith) 1
      (λ e. absurd (omega arith)) (omega arith) (omega arith)

abbrev resolver : Resolver
resolver = record {
  split_host_port = λ target. some (codes "api", codes "443");
  parse_ip = λ host. none;
}

abbrev request : Bytes
request = 5 ∷ 1 ∷ 0 ∷ 3 ∷ 3 ∷ (codes "api" ++ (1 ∷ 187 ∷ []))

socks5_handshake-ok_example :
    socks5_handshake false resolver (codes "u") (codes "p") [] (record {
      input = letting_in true 1 (reply_to (four (0 ∷ 0 ∷ 0 ∷ 0 ∷ [])) 0 (0 ∷ 0 ∷ codes "TLS"));
      output = [];
      writes = 3;
    })
    ≡ ok tt (record {
      input = codes "TLS";
      output = introduction true (codes "u") (codes "p") ++ request;
      writes = 0;
    })
unfolding target_request
socks5_handshake-ok_example =
    socks5_handshake-ok false resolver (codes "u") (codes "p") [] request true
      (four (0 ∷ 0 ∷ 0 ∷ 0 ∷ [])) 1 0 0 0 (codes "TLS") 0 refl refl refl
