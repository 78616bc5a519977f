-- ===== src/Integration/Uris.antt =====
-- integration/broker_client.go: the parts of the URI of a binding.
use text.Mathlib.TextLemmas.{append_assoc}
use Prim.Native.Char.{char}
use cf_redis_broker.Base.{
  String, ◌<>◌, ◌≡◌, refl, sym, ap, ◌∙◌, false, [], ◌∷◌, arith, split, has_byte,
}
use cf_redis_broker.Redisconf.Lines.{split-append, one_byte-append, has_byte-append}
use cf_redis_broker.System.Port.{split_one}
use cf_redis_broker.Integration.Client.{BrokerClient, instance_uri, binding_uri}

slash_first : (rest : String) → split b'/' ("/" <> rest) ≡ "" ∷ split b'/' rest
slash_first rest = rw (one_byte-append (char 47 tt) rest) refl

-- A text without a slash is the first part.
part_first :
    (s rest : String)
    → has_byte b'/' s ≡ false
    → split b'/' (s <> "/" <> rest) ≡ s ∷ split b'/' rest
part_first s rest lacks =
    rw (one_byte-append (char 47 tt) rest) (split-append b'/' (char 47 tt) s rest refl lacks)

-- The texts between the parts, taken apart at the slashes.
behind_id :
    (rest : String) → ("/service_bindings/" <> rest) ≡ "/" <> "service_bindings" <> "/" <> rest
behind_id rest =
    append_assoc "/" "service_bindings/" rest
    ∙ ap (λ t. "/" <> t) (append_assoc "service_bindings" "/" rest)

behind_port :
    (rest : String)
    → ("/v2/service_instances/" <> rest) ≡ "/" <> "v2" <> "/" <> "service_instances" <> "/" <> rest
behind_port rest =
    append_assoc "/" "v2/service_instances/" rest
    ∙ ap (λ t. "/" <> t)
        (append_assoc "v2" "/service_instances/" rest
          ∙ ap (λ t. "v2" <> t)
              (append_assoc "/" "service_instances/" rest
                ∙ ap (λ t. "/" <> t) (append_assoc "service_instances" "/" rest)))

before_port :
    (port rest : String)
    → ("http://localhost:" <> port <> rest)
      ≡ "http:" <> "/" <> "/" <> ("localhost:" <> port) <> rest
before_port port rest =
    append_assoc "http:" "//localhost:" (port <> rest)
    ∙ ap (λ t. "http:" <> t)
        (append_assoc "/" "/localhost:" (port <> rest)
          ∙ ap (λ t. "/" <> t)
              (append_assoc "/" "localhost:" (port <> rest)
                ∙ ap (λ t. "/" <> t) (sym (append_assoc "localhost:" port rest))))

module _ (port rest : String) where
  -- The parts in front of the instance's ID.
  before_id :
      has_byte b'/' port ≡ false
      → split b'/' ("http://localhost:" <> port <> "/v2/service_instances/" <> rest)
        ≡ "http:" ∷ "" ∷ ("localhost:" <> port) ∷ "v2" ∷ "service_instances" ∷ split b'/' rest
  before_id lacks =
      let host_lacks : has_byte b'/' ("localhost:" <> port) ≡ false =
        has_byte-append b'/' "localhost:" port ∙ ground (arith, lacks) in
      let instances : String = "service_instances" <> "/" <> rest in
      let path : String = "v2" <> "/" <> instances in
      let authority : String = ("localhost:" <> port) <> "/" <> path in
      ap (split b'/') (
        ap (λ t. "http://localhost:" <> port <> t) (behind_port rest)
        ∙ before_port port ("/" <> "v2" <> "/" <> "service_instances" <> "/" <> rest))
      ∙ part_first "http:" ("/" <> authority) refl
      ∙ ap (◌∷◌ "http:") (
          slash_first authority
          ∙ ap (◌∷◌ "") (
              part_first ("localhost:" <> port) path host_lacks
              ∙ ap (◌∷◌ ("localhost:" <> port)) (
                  part_first "v2" instances refl
                  ∙ ap (◌∷◌ "v2") (part_first "service_instances" rest refl))))

-- The URI of a binding, for a port, an instance's ID and a binding's ID without a slash, has both
-- IDs as parts, at their places.
pub split-binding_uri :
    (client : BrokerClient) (instance_id binding_id : String)
    → has_byte b'/' client.config.port ≡ false
    → has_byte b'/' instance_id ≡ false
    → has_byte b'/' binding_id ≡ false
    → split b'/' (binding_uri client instance_id binding_id)
      ≡ "http:"
        ∷ ""
        ∷ ("localhost:" <> client.config.port)
        ∷ "v2"
        ∷ "service_instances"
        ∷ instance_id
        ∷ "service_bindings"
        ∷ binding_id
        ∷ []
unfolding binding_uri instance_uri
split-binding_uri client instance_id binding_id port id binding =
    let last : split b'/' (instance_id <> "/service_bindings/" <> binding_id)
        ≡ instance_id ∷ "service_bindings" ∷ binding_id ∷ [] =
      ap (λ t. split b'/' (instance_id <> t)) (behind_id binding_id)
      ∙ part_first instance_id _ id
      ∙ ap (◌∷◌ instance_id) (
          part_first "service_bindings" binding_id refl
          ∙ ap (◌∷◌ "service_bindings") (split_one b'/' binding_id binding)) in
    let port_text : String = client.config.port in
    let tail : String = "/service_bindings/" <> binding_id in
    ap (split b'/') (
      append_assoc "http://localhost:" (port_text <> "/v2/service_instances/" <> instance_id) tail
      ∙ ap (λ t. "http://localhost:" <> t)
          (append_assoc port_text ("/v2/service_instances/" <> instance_id) tail
            ∙ ap (λ t. port_text <> t) (append_assoc "/v2/service_instances/" instance_id tail)))
    ∙ before_id port_text (instance_id <> tail) port
    ∙ ap (λ parts. "http:" ∷ "" ∷ ("localhost:" <> port_text) ∷ "v2" ∷ "service_instances" ∷ parts)
        last
