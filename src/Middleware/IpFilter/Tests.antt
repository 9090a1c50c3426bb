-- ===== src/Middleware/IpFilter/Tests.antt =====
-- Runs of the filter.
use tick_framework.Base.{◌≡◌, refl, inl, inr, false, [], ◌∷◌, some, codes, has_prefix, bytes_eq}
use tick_framework.Middleware.IpFilter.{
  IpFilter, passes, forbidden, has_star, add_entry, sort_entries, any_exact, any_prefix, decide_ip,
  check_ip, on_request_startup,
}
use tick_framework.Middleware.IpFilter.Whitelist.{on_request_startup-passes_iff}

abbrev office : IpFilter
office = record { whitelist = codes "127.0.0.1" ∷ codes "10.1.*" ∷ []; real_ip = false }

on_request_startup-passes_iff_example : on_request_startup office [] (codes "10.1.2.3") ≡ passes
unfolding has_star
on_request_startup-passes_iff_example =
    (on_request_startup-passes_iff office [] (codes "10.1.2.3")).1
      (inr (inl (inr (codes "10.1.", (codes "2.3", refl, refl)))))

outside :
    on_request_startup office (codes "127.0.0.1") (codes "10.2.0.1")
    ≡ forbidden (some (codes "access not allow for ip: 10.2.0.1"))
unfolding on_request_startup check_ip decide_ip sort_entries add_entry has_star any_exact any_prefix
    has_prefix bytes_eq
outside = refl
