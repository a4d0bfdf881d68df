-- ===== src/Model/Validate/Srv6.antt =====
-- validateSRv6 and validateSRv6FeedURL of internal/model/validate_xfrm.go.
use th.Base.{
  ℕ, ◌+◌, Bool, true, false, ◌&&◌, ◌||◌, not, ltb, ◌==◌, List, [], ◌∷◌, Option, none, some, length,
}
use th.Base.Int.{ℤ, below, above, eq_ℤ}
use th.Base.Text.{Text, text_eq, is_empty, codes}
use th.Proto.Addr.{is_valid, is6, is_unspecified}
use th.Model.Types.{Srv6AddressFamily, family_ipv4, family_ipv6, other_family, Srv6Source, Srv6Spec}
use th.Model.Check.{
  Check, ok, err, ◌>>◌, fail_if, wrap, in_field, in_source, too_many_sources, bad_table,
  bad_rule_priority, bad_refresh, sources_required, bad_source_name, duplicate_source_name,
  bad_family, padded_url, bad_url, bad_sid, bad_source_priority, duplicate_source_priority,
}
use th.Model.Library.{Library}
use th.Model.Validate.Common.{valid_name, validate_interface, validate_mtu}
use th.Model.Validate.Wireguard.{has_text}

abbrev pub max_srv6_sources : ℕ
max_srv6_sources = 64

-- The constants of internal/model/ownership.go.
abbrev pub srv6_rule_priority_min : ℕ
srv6_rule_priority_min = 1

abbrev pub srv6_rule_priority_max : ℕ
srv6_rule_priority_max = 32765

abbrev pub has_int : List ℤ → ℤ → Bool
has_int [] z = false
has_int (y ∷ seen) z = eq_ℤ y z || has_int seen z

abbrev pub is_family : Srv6AddressFamily → Bool
is_family family_ipv4 = true
is_family family_ipv6 = true
is_family (other_family f) = false

-- The test on what `url.Parse` gives.
unfoldable pub validate_parsed_url : Option (Text × Text) → Check
validate_parsed_url none = err bad_url
validate_parsed_url (some (scheme, host)) =
    fail_if
      (not (text_eq scheme (codes "http")) && not (text_eq scheme (codes "https")) || is_empty host)
      bad_url

module _ (lib : Library) where
  unfoldable pub validate_srv6_feed_url : Text → Check
  validate_srv6_feed_url value =
      fail_if (not (text_eq value (lib.trim_space value))) padded_url
      >> validate_parsed_url (lib.parse_url value)

  -- One round of the loop of `validateSRv6`.
  unfoldable pub validate_source : ℕ → List Text → List ℤ → Srv6Source → Check
  validate_source i seen priorities source =
      fail_if (not (valid_name source.name)) (in_source i bad_source_name)
      >> fail_if (has_text seen source.name) duplicate_source_name
      >> fail_if (not (is_family source.family)) (in_source i bad_family)
      >> wrap (in_source i) (validate_srv6_feed_url source.prefix_url)
      >> fail_if (not (is_valid source.sid) || not (is6 source.sid) || is_unspecified source.sid)
          (in_source i bad_sid)
      >> fail_if
          (below source.priority srv6_rule_priority_min
            || above source.priority srv6_rule_priority_max)
          (in_source i bad_source_priority)
      >> fail_if (has_int priorities source.priority) duplicate_source_priority
      >> wrap (in_source i) (validate_mtu source.mtu)

  unfoldable pub sources_loop : ℕ → List Text → List ℤ → List Srv6Source → Check
  sources_loop i seen priorities [] = ok
  sources_loop i seen priorities (source ∷ sources) =
      validate_source i seen priorities source
      >> sources_loop (i + 1) (source.name ∷ seen) (source.priority ∷ priorities) sources

  unfoldable pub validate_srv6 : Srv6Spec → Check
  validate_srv6 spec =
      fail_if (ltb max_srv6_sources (length spec.sources)) too_many_sources
      >> wrap (in_field (codes "underlay_interface")) (validate_interface spec.underlay_interface)
      >> fail_if (below spec.table 1 || above spec.table 2147483647) bad_table
      >> fail_if
          (below spec.rule_priority srv6_rule_priority_min
            || above spec.rule_priority srv6_rule_priority_max)
          bad_rule_priority
      >> fail_if
          (below spec.refresh_interval_seconds 60 || above spec.refresh_interval_seconds 604800)
          bad_refresh
      >> fail_if (length spec.sources == 0) sources_required
      >> sources_loop 0 [] [] spec.sources
