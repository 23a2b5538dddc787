-- ===== src/Conversion/Filtered.antt =====
-- pkg/controllers/utils.go: what services and volumes have when they are sent.
use clusterrouter.Base.{
  String, ◌≡◌, ◌≢◌, ◌↔◌, ◌⊎◌, inl, inr, refl, sym, ap, subst, ◌∙◌, true, false, none, some, List,
  [], ◌∷◌, Map, lookup, Distinct, text_dec, text_differs, ite, if_pos, if_neg,
}
use clusterrouter.Conversion.{
  ObjectMeta, Json, value_at, put_entry, global_label, trim_object_meta, is_object_global,
  set_object_global,
}
use clusterrouter.Conversion.Entries.{value_at-put_entry, value_at_other}
use clusterrouter.Conversion.Filters.{
  host_name_key, beta_host_name_key, label_selector, Service, detached, with_annotation,
  filter_service, Requirement, NodeSelectorTerm, PersistentVolume, on_host, all_on_host,
  terms_on_host, filter_pv,
}

headless : (ip : String) → (ite (text_dec ip "None") ip "" ≡ "None") ↔ (ip ≡ "None")
headless ip = elim (text_dec ip "None") [
  | yes h ↦ rw (if_pos _ h) (λ e. e, λ e. e)
  | no n ↦ rw (if_neg _ n) (λ e. absurd (text_differs "" "None" refl e), λ h. absurd (n h))
]

annotated_global :
    (s : String) (meta : ObjectMeta)
    → is_object_global (with_annotation label_selector s (set_object_global meta)) ≡ true
unfolding is_object_global set_object_global with_annotation
annotated_global s meta =
    let marked = put_entry global_label "true" meta.annotations in
    let kept : value_at global_label (put_entry label_selector s marked) ≡ "true" =
      value_at_other label_selector global_label s marked
        (text_differs label_selector global_label refl)
      ∙ value_at-put_entry global_label "true" meta.annotations in
    ap (λ v. ite (text_dec v "true") true false) kept ∙ rw (if_pos (text_dec "true" "true") refl)

-- A service that is sent has no selector and is marked; its selector can be read back from its
-- annotation with the same entries; and it is headless exactly if it was.
pub filter_service-selector :
    (J : Json) (service : Service) (selector : Map String)
    → service.selector ≡ some selector
    → Distinct selector
    → (sent : Service) × (n : Map String) × (filter_service J service ≡ some sent)
      × (sent.selector ≡ none)
      × (is_object_global sent.meta ≡ true)
      × (J.unmarshal (value_at label_selector sent.meta.annotations) ≡ some n)
      × ((k : String) → lookup k n ≡ lookup k selector)
      × ((sent.cluster_ip ≡ "None") ↔ (service.cluster_ip ≡ "None"))
unfolding filter_service with_annotation detached
filter_service-selector J service selector e d =
    let (s, n, written, full, read, _, entries) = J.unmarshal-marshal selector d in
    let m = (detached service).meta in
    let sent = record (detached service) { meta = with_annotation label_selector s m } in
    (
      sent,
      n,
      simp (filter_service, e, written),
      refl,
      annotated_global s (trim_object_meta service.meta),
      ap J.unmarshal (value_at-put_entry label_selector s m.annotations) ∙ read,
      entries,
      headless service.cluster_ip,
    )

-- A requirement on the name of the host asks for the given host; any other stays.
abbrev pub IsMoved : String → Requirement → Requirement → Type 0
IsMoved host_ip r r' =
    (r'.key ≡ r.key)
    × (r'.operator ≡ r.operator)
    × ((((r.key ≡ host_name_key) ⊎ (r.key ≡ beta_host_name_key)) × (r'.values ≡ host_ip ∷ []))
        ⊎ ((r.key ≢ host_name_key) × (r.key ≢ beta_host_name_key) × (r'.values ≡ r.values)))

abbrev pub AllMoved : String → List Requirement → List Requirement → Type 0
AllMoved host_ip [] [] = Unit
AllMoved host_ip (r ∷ rs) (r' ∷ rs') = IsMoved host_ip r r' × AllMoved host_ip rs rs'
AllMoved host_ip _ _ = ⊥

abbrev pub TermsMoved : String → List NodeSelectorTerm → List NodeSelectorTerm → Type 0
TermsMoved host_ip [] [] = Unit
TermsMoved host_ip (t ∷ ts) (t' ∷ ts') =
    AllMoved host_ip t.match_fields t'.match_fields
    × AllMoved host_ip t.match_expressions t'.match_expressions
    × TermsMoved host_ip ts ts'
TermsMoved host_ip _ _ = ⊥

on_host-IsMoved : (host_ip : String) (r : Requirement) → IsMoved host_ip r (on_host host_ip r)
unfolding on_host
on_host-IsMoved host_ip r =
    let moved = record r { values = host_ip ∷ [] } in
    let other = ite (text_dec r.key beta_host_name_key) moved r in
    elim (text_dec r.key host_name_key) [
      | yes h ↦
          subst (IsMoved host_ip r) (sym (if_pos (text_dec r.key host_name_key) h moved other))
            (refl, refl, inl (inl h, refl))
      | no n ↦
          subst (IsMoved host_ip r) (sym (if_neg (text_dec r.key host_name_key) n moved other))
            (elim (text_dec r.key beta_host_name_key) [
              | yes h ↦
                  subst (IsMoved host_ip r)
                    (sym (if_pos (text_dec r.key beta_host_name_key) h moved r))
                    (refl, refl, inl (inr h, refl))
              | no m ↦
                  subst (IsMoved host_ip r)
                    (sym (if_neg (text_dec r.key beta_host_name_key) m moved r))
                    (refl, refl, inr (n, m, refl))
            ])
    ]

all_on_host-AllMoved :
    (host_ip : String) (rs : List Requirement) → AllMoved host_ip rs (all_on_host host_ip rs)
unfolding all_on_host
all_on_host-AllMoved host_ip [] = tt
all_on_host-AllMoved host_ip (r ∷ rs) = (on_host-IsMoved host_ip r, all_on_host-AllMoved host_ip rs)

terms_on_host-TermsMoved :
    (host_ip : String) (ts : List NodeSelectorTerm)
    → TermsMoved host_ip ts (terms_on_host host_ip ts)
unfolding terms_on_host
terms_on_host-TermsMoved host_ip [] = tt
terms_on_host-TermsMoved host_ip (t ∷ ts) = (
  all_on_host-AllMoved host_ip t.match_fields,
  all_on_host-AllMoved host_ip t.match_expressions,
  terms_on_host-TermsMoved host_ip ts,
)

-- The required terms of a volume that is sent are those that it had, in their order, but that every
-- requirement on the name of the host, in fields and expressions, asks for the given host.
pub filter_pv-TermsMoved :
    (pv : PersistentVolume) (host_ip : String) (terms : List NodeSelectorTerm)
    → pv.node_affinity ≡ some (some terms)
    → (sent : List NodeSelectorTerm) × ((filter_pv pv host_ip).node_affinity ≡ some (some sent))
      × TermsMoved host_ip terms sent
unfolding filter_pv
filter_pv-TermsMoved pv host_ip terms e =
    (terms_on_host host_ip terms, rw e, terms_on_host-TermsMoved host_ip terms)
