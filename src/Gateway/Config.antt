-- ===== src/Gateway/Config.antt =====
-- The configuration: deploy/global-router/config.go, with the reading of a limit in router.go.
use featuresignals_unified.Base.{
  ℕ, suc, ◌+◌, ◌-◌, ◌*◌, ◌%◌, Bool, true, false, not, ◌&&◌, ◌||◌, Option, none, some, List, [], ◌∷◌,
  ◌++◌, ltb, leb, ◌==◌, if◌then◌else◌,
}
use featuresignals_unified.Base.Int.{ℤ, pos, negsuc, leb_ℤ}
use featuresignals_unified.Base.Text.{Text, bytes, text_eq}
use featuresignals_unified.Base.Strings.{split_once}

pub record Domain : Type 0 where
  pub name : Text
  pub domain_type : Text
  pub root : Text
  pub target : Text
  pub rate_limit : Text
  pub auth : Text

pub record Config : Type 0 where
  pub domains : List Domain
  pub cluster_name : Text
  pub default_rate_limit : Text
  pub tls_port : ℤ
  pub cache_dir : Text
  pub conn_limit : ℤ
  pub max_ips : ℤ

pub data ConfigError : Type 0 where
  no_domain : ConfigError
  no_cluster_name : ConfigError
  no_name no_root no_target : ℕ → ConfigError
  bad_type : ℕ → Text → ConfigError

abbrev is_empty : Text → Bool
is_empty s = text_eq s []

abbrev pub when {ℓ} : {A : Type ℓ} → Bool → A → List A
when true e = e ∷ []
when false e = []

abbrev pub is_static : Domain → Bool
is_static d = text_eq d.domain_type (bytes "static")

abbrev pub is_proxy : Domain → Bool
is_proxy d = text_eq d.domain_type (bytes "proxy")

-- The errors of the domain with the index `i`.
unfoldable pub domain_errors : ℕ → Domain → List ConfigError
domain_errors i d =
    when (is_empty d.name) (no_name i)
    ++ when (not (is_static d) && not (is_proxy d)) (bad_type i d.domain_type)
    ++ when (is_static d && is_empty d.root) (no_root i)
    ++ when (is_proxy d && is_empty d.target) (no_target i)

unfoldable pub domains_errors : ℕ → List Domain → List ConfigError
domains_errors i [] = []
domains_errors i (d ∷ ds) = domain_errors i d ++ domains_errors (suc i) ds

abbrev none_left {ℓ} : {A : Type ℓ} → List A → Bool
none_left [] = true
none_left (_ ∷ _) = false

-- Validate: the errors, and the configuration with its defaults.
unfoldable pub validate_config : Config → List ConfigError × Config
unfolding domains_errors domain_errors
validate_config c = (
  when (none_left c.domains) no_domain
      ++ when (is_empty c.cluster_name) no_cluster_name
      ++ domains_errors 0 c.domains,
  record c {
    tls_port =
        (if leb_ℤ c.tls_port (pos 0) && leb_ℤ (pos 0) c.tls_port then pos 443 else c.tls_port);
    cache_dir = (if is_empty c.cache_dir then bytes "/data/certs" else c.cache_dir);
    conn_limit = (if leb_ℤ c.conn_limit (pos 0) then pos 100 else c.conn_limit);
    max_ips = (if leb_ℤ c.max_ips (pos 0) then pos 100000 else c.max_ips);
  },
)

-- The loop over the digits at the front, in an int of 64 bits: the number is kept modulo 2^64.
unfoldable pub atoi_loop : ℕ → Text → ℕ
atoi_loop n [] = n
atoi_loop n (c ∷ s) =
    let rest = atoi_loop ((n * 10 + (c - 48)) % 18446744073709551616) s in
    if leb 48 c && leb c 57 then rest else n

-- The int whose bits are those of a number below 2^64.
abbrev pub to_int : ℕ → ℤ
to_int n = if ltb n 9223372036854775808 then pos n else negsuc (18446744073709551615 - n)

unfoldable pub atoi : Text → ℤ
unfolding atoi_loop
atoi s = if atoi_loop 0 s == 0 then pos 100 else to_int (atoi_loop 0 s)

abbrev second : ℕ
second = 1000000000

abbrev minute : ℕ
minute = 60 * second

abbrev pub rate_of : Option (Text × Text) → ℤ × ℕ
rate_of none = (pos 100, minute)
rate_of (some (n, unit)) =
    if text_eq unit (bytes "min")
    then (atoi n, minute)
    else (if text_eq unit (bytes "sec") || text_eq unit (bytes "s")
        then (atoi n, second)
        else (atoi n, minute))

-- The limit and the window, in nanoseconds; the parts stand around the first `/` (47).
unfoldable pub parse_rate_limit : Text → ℤ × ℕ
unfolding atoi
parse_rate_limit s = rate_of (split_once 47 s)
