-- ===== src/Network/Records.antt =====
-- `scripts/ubb_network.py`: the records of an accepted name-server configuration.
use ultimate_bbsbox.Prelude.{
  String, false, not, ◌≡◌, ◌≢◌, refl, ap, ◌∙◌, List, [], ◌∷◌, arith, eq_iff,
}
use ultimate_bbsbox.Prelude.Exec.{ok}
use ultimate_bbsbox.Prelude.Results.{each, checked, >>=-eq-ok}
use ultimate_bbsbox.Prelude.Every.{Every, Pairwise, Every-map}
use ultimate_bbsbox.Errors.{network_config_error}
use ultimate_bbsbox.Edge.Models.{IpLibrary}
use ultimate_bbsbox.Network.Config.{
  DnsRecord, DnsConfig, RecordKey, domain, is_named, address, network, checked_value, check_records,
  dns_config,
}

-- A record whose name has the normal form `n`, and the record's type, are a key.
pub record HasKey (r : DnsRecord) (key : RecordKey) : Type 0 where
  pub named : domain r.record_name ≡ ok key.0
  pub typed : r.record_type ≡ key.1

-- Two records that answer different questions.
abbrev pub IsDistinctFrom : DnsRecord → DnsRecord → Type 0
IsDistinctFrom a b = (j k : RecordKey) → HasKey a j → HasKey b k → j ≢ k

unnamed→Every :
    (key : RecordKey) (names : List RecordKey)
    → is_named key names ≡ false
    → Every (λ old. old ≢ key) names
unfolding is_named
unnamed→Every key [] h = tt
unnamed→Every key (old ∷ names) h = (
  λ e.
      let first : old.0 ≡ key.0 = ap (λ (k : RecordKey). k.0) e in
      let second : old.1 ≡ key.1 = ap (λ (k : RecordKey). k.1) e in
      ground (arith, eq_iff key.0 old.0, eq_iff key.1 old.1),
  unnamed→Every key names (ground arith),
)

key_determined :
    (r : DnsRecord) (name : String) (key : RecordKey)
    → domain r.record_name ≡ ok name
    → HasKey r key
    → (name, r.record_type) ≡ key
key_determined r name (n, t) e h =
    let named : domain r.record_name ≡ ok n = h.named in
    let same : name ≡ n = cc in let typed : r.record_type ≡ t = h.typed in rw (same, typed) refl

-- No later record has a key of `names`.
abbrev IsNew : List RecordKey → DnsRecord → Type 0
IsNew names r = (key : RecordKey) → HasKey r key → Every (λ old. old ≢ key) names

module _ (lib : IpLibrary) where
  check_records-Pairwise :
      (names : List RecordKey) (rs : List DnsRecord) (out : List RecordKey)
      → check_records lib names rs ≡ ok out
      → Pairwise IsDistinctFrom rs × Every (IsNew names) rs
  unfolding check_records
  check_records-Pairwise names [] out h = (tt, tt)
  check_records-Pairwise names (r ∷ rs) out h =
      let (name, here, h) = >>=-eq-ok (domain r.record_name) _ h in
      let (new, h) =
        checked (not (is_named (name, r.record_type) names)) network_config_error _ h in
      let (v, valued, h) = >>=-eq-ok (checked_value lib r.record_type r.record_value) _ h in
      let (apart, free) = check_records-Pairwise ((name, r.record_type) ∷ names) rs out h in
      let unseen = unnamed→Every (name, r.record_type) names (ground arith) in
      (
        (
          Every-map _ _ rs (λ s f j k hj hk e. (f k hk).0 (key_determined r name j here hj ∙ e))
              free,
          apart,
        ),
        (
          λ key hk. let same = key_determined r name key here hk in rw same at unseen,
          Every-map _ _ rs (λ s f key hk. (f key hk).1) free,
        ),
      )

  -- In a configuration that is accepted, no two records have names with the same normal form and the
  -- same type: names that differ in case or in dots at their end count as one.
  pub dns_config-Pairwise :
      (c d : DnsConfig) → dns_config lib c ≡ ok d → Pairwise IsDistinctFrom c.records
  unfolding dns_config
  dns_config-Pairwise c d h =
      let (name, e0, h) = >>=-eq-ok (domain c.internal_domain) _ h in
      let (listen, e1, h) = >>=-eq-ok (each (address lib) c.listen) _ h in
      let (networks, e2, h) = >>=-eq-ok (each (network lib) c.trusted_networks) _ h in
      let (names, e3, h) = >>=-eq-ok (check_records lib [] c.records) _ h in
      (check_records-Pairwise [] c.records names e3).0
