-- ===== src/Collectors/DnsDoh/Run.antt =====
-- `run` of backend/app/collectors/dns_doh.py. The findings share one reading of the clock.
use recon_ledger.Prelude.{
  ℕ, Option, none, some, List, [], ◌∷◌, ◌++◌, map, length, sort_texts, Text, codes,
}
use recon_ledger.Models.Json.{Json, ℤ, num, str, arr, obj, Items, nil, cons, end, field}
use recon_ledger.Collectors.Contract.{CollectedFinding}
use recon_ledger.Collectors.Context.{
  Surroundings, Collecting, ◌>>=◌, pure, lift, or_uncaught, utcnow, compute_cache_key,
}
use recon_ledger.Collectors.Caching.Access.{cached_or_asked}
use recon_ledger.Collectors.Crtsh.{rstrip}
use recon_ledger.Collectors.DnsDoh.{
  Strings, Soa, answers_of, texts_in, set_of, txt_values, mx_records, soa_of,
}
use recon_ledger.Collectors.DnsDoh.Mail.{texts_value, tagged, spf_value, dmarc_value}
use recon_ledger.Collectors.DnsDoh.Queries.{
  query_with_fallback, own_identity, finding, ask_addresses,
}

module _ (w : Surroundings) (p : Strings) (decimal : ℕ → Text) where
  -- a finding with the target's own identity, from an answer and its host
  abbrev found : ℕ → Text → Text → Text → Json → Json × Text → List CollectedFinding
  found now kind title summary normalized (raw, host) =
      finding w p decimal now kind title summary normalized raw host (own_identity w p decimal) ∷ []

  abbrev cname_finding : ℕ → Json × Text → List Text → List CollectedFinding
  cname_finding now answer [] = []
  cname_finding now answer (v ∷ vs) =
      found now (codes "dns.cname") (codes "CNAME for " ++ w.target) (codes "Aliased to " ++ v)
        (obj (field (codes "target") (str v) end)) answer

  abbrev mx_values : List (ℕ × Text) → Items
  mx_values [] = nil
  mx_values ((preference, exchange) ∷ records) =
      cons
        (obj (
          field (codes "preference") (num (ℤ.pos preference))
            (field (codes "exchange") (str exchange) end)))
        (mx_values records)

  abbrev mx_finding : ℕ → Json × Text → List (ℕ × Text) → List CollectedFinding
  mx_finding now answer [] = []
  mx_finding now answer (r ∷ rs) =
      found now (codes "dns.mx") (codes "MX records for " ++ w.target)
        (decimal (length (r ∷ rs)) ++ codes " mail exchanger(s) observed")
        (obj (field (codes "records") (arr (mx_values (r ∷ rs))) end)) answer

  abbrev list_finding :
      ℕ → Text → Text → Text → Text → Json × Text → List Text → List CollectedFinding
  list_finding now kind title summary key answer [] = []
  list_finding now kind title summary key answer (v ∷ vs) =
      found now kind (title ++ codes " for " ++ w.target) (decimal (length (v ∷ vs)) ++ summary)
        (obj (field key (arr (texts_value (v ∷ vs))) end)) answer

  abbrev soa_finding : ℕ → Json × Text → Option Soa → List CollectedFinding
  soa_finding now answer none = []
  soa_finding now answer (some s) =
      found now (codes "dns.soa") (codes "SOA record for " ++ w.target)
        (codes "Primary nameserver " ++ s.mname)
        (obj (
          field (codes "mname") (str s.mname) (
            field (codes "rname") (str s.rname) (
              field (codes "serial") (str s.serial) (
                field (codes "refresh") (str s.refresh) (
                  field (codes "retry") (str s.retry) (
                    field (codes "expire") (str s.expire)
                      (field (codes "minimum") (str s.minimum) end))))))))
        answer

  abbrev spf_finding : ℕ → Json × Text → Option Json → List CollectedFinding
  spf_finding now answer none = []
  spf_finding now answer (some value) =
      found now (codes "dns.spf") (codes "SPF policy for " ++ w.target)
        (codes "SPF record observed") value answer

  abbrev dmarc_finding : ℕ → Json × Text → Option Json → List CollectedFinding
  dmarc_finding now answer none = []
  dmarc_finding now (raw, host) (some value) =
      finding w p decimal now (codes "dns.dmarc") (codes "DMARC policy for " ++ w.target)
        (codes "DMARC record observed - policy not independently verified beyond this resolver")
        value raw host
        (obj
          (field (codes "target") (str w.target) (field (codes "kind") (str (codes "dmarc")) end)))
      ∷ []

  abbrev or_raise {ℓ} : {A : Type ℓ} → Option A → Collecting A
  or_raise o = lift (or_uncaught o)

  abbrev asked : Text → Collecting (Json × Text)
  asked record_type = query_with_fallback w p decimal w.target record_type

  -- `run`, once nothing is cached
  unfoldable pub ask : Collecting (List CollectedFinding × Json)
  unfolding utcnow ask_addresses query_with_fallback finding answers_of texts_in rstrip sort_texts
      set_of mx_records soa_of txt_values tagged spf_value dmarc_value
  ask = do
    now ← utcnow w
    four ← ask_addresses w p decimal now (codes "A") (codes "dns.a")
    six ← ask_addresses w p decimal now (codes "AAAA") (codes "dns.aaaa")
    cname ← asked (codes "CNAME")
    cnames ← or_raise (texts_in cname.0)
    mx ← asked (codes "MX")
    mx_answers ← or_raise (answers_of mx.0)
    exchangers ← or_raise (mx_records p mx_answers)
    ns ← asked (codes "NS")
    nameservers ← or_raise (texts_in ns.0)
    soa ← asked (codes "SOA")
    soa_answers ← or_raise (answers_of soa.0)
    authority ← or_raise (soa_of p soa_answers)
    txt ← asked (codes "TXT")
    texts ← or_raise (txt_values p txt.0)
    dmarc ← query_with_fallback w p decimal (codes "_dmarc." ++ w.target) (codes "TXT")
    policies ← or_raise (txt_values p dmarc.0)
    let findings =
        four
        ++ six
        ++ cname_finding now cname (map (rstrip 46) cnames)
        ++ mx_finding now mx exchangers
        ++ list_finding now (codes "dns.ns") (codes "Nameservers") (codes " nameserver(s) observed")
            (codes "nameservers") ns (sort_texts (set_of (map (rstrip 46) nameservers)))
        ++ soa_finding now soa authority
        ++ list_finding now (codes "dns.txt") (codes "TXT records")
            (codes " TXT record(s) observed") (codes "records") txt texts
        ++ spf_finding now txt (spf_value p (tagged p (codes "v=spf1") texts))
        ++ dmarc_finding now dmarc (dmarc_value p (tagged p (codes "v=dmarc1") policies))
    pure (findings, obj (field (codes "finding_count") (num (ℤ.pos (length findings))) end))

  unfoldable pub run : Collecting (List CollectedFinding)
  unfolding compute_cache_key cached_or_asked ask
  run =
      cached_or_asked w (compute_cache_key w (codes "dns_doh") (codes "1") w.target [] none) 1800
        600 ask
