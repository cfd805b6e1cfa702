-- ===== src/Parser/Names/Roundtrip.antt =====
-- internal/parser/parser.go: the names are read back from the routing keys that the firehose makes.
use amqp_routing_inspector.Base.{
  false, [], ◌∷◌, ◌++◌, ◌≡◌, ◌≢◌, refl, ap, ◌∙◌, nat_eq, list_eq, list_beq, is_nil,
}
use amqp_routing_inspector.Base.Text.{
  Text, codes, is_space, trim_left, trim_space, has_prefix, trim_prefix,
}
use amqp_routing_inspector.Base.Text.Trim.{trim_right_of_trimmed, trim_right-append}
use amqp_routing_inspector.Parser.Names.{
  publish, cut_routing_key, parse_exchange_remainder, parse_exchange_trimmed, parse_exchange,
  parse_deliver_queue,
}

not_nil : (s : Text) → s ≢ [] → is_nil s ≡ false
not_nil [] h = absurd (h refl)
not_nil (c ∷ s) h = refl

trim_published :
    (x : Text) → trim_space x ≡ x → trim_space (codes "publish." ++ x) ≡ codes "publish." ++ x
unfolding trim_space trim_left is_space
trim_published x t =
    trim_right-append (codes "publish.") x
      (refl, (refl, (refl, (refl, (refl, (refl, (refl, (refl, tt))))))))
    ∙ ap (λ s. codes "publish." ++ s) (trim_right_of_trimmed x t)

trim_delivered :
    (x : Text) → trim_space x ≡ x → trim_space (codes "deliver." ++ x) ≡ codes "deliver." ++ x
unfolding trim_space trim_left is_space
trim_delivered x t =
    trim_right-append (codes "deliver.") x
      (refl, (refl, (refl, (refl, (refl, (refl, (refl, (refl, tt))))))))
    ∙ ap (λ s. codes "deliver." ++ s) (trim_right_of_trimmed x t)

trim_prefix_delivered : (x : Text) → trim_prefix (codes "deliver." ++ x) (codes "deliver.") ≡ x
unfolding trim_prefix has_prefix
trim_prefix_delivered x = refl

remainder_published : (x : Text) → x ≢ [] → parse_exchange_remainder x publish [] ≡ x
unfolding parse_exchange_remainder cut_routing_key list_beq
remainder_published x n = rw (not_nil x n) refl

-- From the key "publish.<exchange>" of a trimmed, non-empty name the exchange is read back, dots
-- included, where no header holds a routing key.
pub parse_exchange-publish :
    (x : Text) → x ≢ [] → trim_space x ≡ x → parse_exchange (codes "publish." ++ x) publish [] ≡ x
unfolding parse_exchange parse_exchange_trimmed
parse_exchange-publish x n t = rw (trim_published x t, t) (remainder_published x n)

-- From the key "deliver.<queue>" of a trimmed, non-empty name the queue is read back, dots included,
-- where no header holds a routing key.
parse_deliver_queue-deliver :
    (x : Text) → x ≢ [] → trim_space x ≡ x → parse_deliver_queue (codes "deliver." ++ x) [] ≡ x
unfolding parse_deliver_queue cut_routing_key
parse_deliver_queue-deliver x n t =
    rw (trim_delivered x t, trim_prefix_delivered x, t, not_nil x n) refl
