-- ===== src/Tests/Traffic.antt =====
-- A chain of proxies, and a limiter whose bucket counts requests down.
use kotoji.Prelude.{ltb, ℕ, ◌-◌, ◌≡◌, refl, true, false, List, [], ◌∷◌, ◌++◌, arith}
use kotoji.Ratelimit.ClientIp.{client_ip_hops, remote_host, trim_blanks, Origin}
use kotoji.Ratelimit.Hops.{appended, client_ip_hops_unforgeable}
use kotoji.Ratelimit.Isolation.{StaysActive}
use kotoji.Ratelimit.Limiter.{RateLib, allow_requests, allow_request, new_limiter, sweep, Limiter}
use kotoji.Tests.{blog, draft}
use kotoji.Text.{Bytes, last_index_byte, bytes_eq, index_byte, codes}

abbrev peer : Origin
peer = record { forwarded_for = []; real_ip = []; remote_addr = codes "10.0.0.9:443" }

abbrev client : Bytes
client = codes " 9.9.9.9 "

client_trimmed : trim_blanks client ≡ codes "9.9.9.9"
unfolding trim_blanks
client_trimmed = refl

client_ip_hops_unforgeable_example :
    (client_ip_hops (record peer { forwarded_for = appended client (codes "10.0.0.1" ∷ []) }) true 2
      ≡ trim_blanks client)
    × (client_ip_hops
          (record peer {
            forwarded_for = appended (codes "6.6.6.6" ++ b',' ∷ client) (codes "10.0.0.1" ∷ []);
          })
          true
          2
        ≡ trim_blanks client)
client_ip_hops_unforgeable_example =
    client_ip_hops_unforgeable peer (codes "6.6.6.6") client (codes "10.0.0.1" ∷ []) (ground arith)
      (ground arith) (λ e. ground (arith, client_trimmed))

peer_host : remote_host peer ≡ codes "10.0.0.9"
unfolding remote_host last_index_byte index_byte
peer_host = refl

-- A bucket that never fills up again, and a whole number as the rate.
abbrev countdown : RateLib
countdown = record {
  Rate = ℕ;
  is_positive = λ r. ltb 0 r;
  truncate = λ r. r;
  below = λ n r. ltb n r;
  Bucket = ℕ;
  new_bucket = λ r burst. burst;
  allow_at = λ b now. (b - 1, ltb 0 b);
}

abbrev limiter : Limiter countdown
limiter = new_limiter countdown (record { rps = 1; burst = 2; ttl = 0 }) 0

abbrev calls : List (ℕ × Bytes)
calls = (1, blog) ∷ (2, draft) ∷ (3, blog) ∷ []

blog_limited : (allow_request countdown (allow_requests countdown limiter calls) blog 4).1 ≡ false
unfolding allow_request allow_requests new_limiter sweep bytes_eq
blog_limited = refl

draft_passes : (allow_request countdown (allow_requests countdown limiter calls) draft 4).1 ≡ true
unfolding allow_request allow_requests new_limiter sweep bytes_eq
draft_passes = refl

draft_active : StaysActive countdown draft limiter calls
unfolding allow_request allow_requests new_limiter sweep bytes_eq
draft_active = (tt, (tt, (omega arith, tt)))
