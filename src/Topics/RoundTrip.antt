-- ===== src/Topics/RoundTrip.antt =====
-- Building and parsing a topic are inverse (app/transports/mqtt_topics.py).
use Prim.Native.String.{◌++◌ as ◌<>◌}
use mathlib.Core.Path.{ap₂}
use Prim.Native.Char.{Char, code}
use text.Mathlib.TextEquality.{Char-path}
use text.Mathlib.TextLemmas.{nil-append, cons-append, append_assoc}
use kz_home_core.Common.{
  ℕ, String, Bool, true, false, not, ◌||◌, some, List, [], ◌∷◌, ◌≡◌, ◌↔◌, refl, sym, ap, ◌∙◌,
  eq_iff, ◌==◌, length, codes, all, Bool-cases, Option-cases, inl, inr, ok, arith,
}
use kz_home_core.Identifiers.{is_identifier, is_identifier_char, is_alnum}
use kz_home_core.Topics.{
  TopicKind, state, set, ack, telemetry, status, control_command, control_request, control_reply,
  value, ParsedTopic, topic_root, is_topic_identifier, prepend, split, join, build_topic, kind_of,
  read_parts, parse_parts, parse_topic,
}

-- No "/" in the text.
abbrev is_slashless : String → Bool
is_slashless s = all (λ c. not (c == b'/')) (codes s)

identifier_char-slashless :
    (cs : List ℕ) → all is_identifier_char cs ≡ true → all (λ c. not (c == b'/')) cs ≡ true
unfolding is_identifier_char is_alnum
identifier_char-slashless [] h = refl
identifier_char-slashless (c ∷ cs) h = ground (arith, identifier_char-slashless cs)

identifier-slashless :
    (n : ℕ) (cs : List ℕ) → is_identifier n cs ≡ true → all (λ c. not (c == b'/')) cs ≡ true
unfolding is_identifier is_alnum
identifier-slashless n [] h = refl
identifier-slashless n (c ∷ cs) h = ground (arith, identifier_char-slashless cs)

-- A part without "/" in front of one is split off whole.
split-part : (s t : String) → is_slashless s ≡ true → split (s <> ("/" <> t)) ≡ s ∷ split t
unfolding split
split-part String.[] t h = rw (nil-append, cons-append, nil-append) refl
split-part (String.◌∷◌ c s) t h =
    let later = split-part s t (ground arith) in rw (cons-append) (rw later (ground arith))

abbrev has_parts : List String → Bool
has_parts [] = false
has_parts (_ ∷ _) = true

prepend-has_parts : (c : Char) (parts : List String) → has_parts (prepend c parts) ≡ true
prepend-has_parts c [] = refl
prepend-has_parts c (part ∷ parts) = refl

split-has_parts : (s : String) → has_parts (split s) ≡ true
unfolding split
split-has_parts String.[] = refl
split-has_parts (String.◌∷◌ c s) = ground (arith, prepend-has_parts c (split s))

join-slash :
    (parts : List String) → has_parts parts ≡ true → join ("" ∷ parts) ≡ String.◌∷◌ "/" (join parts)
unfolding join
join-slash [] h = absurd (ground arith)
join-slash (part ∷ parts) h = rw (nil-append) (rw cons-append (rw nil-append refl))

join-prepend :
    (c : Char) (parts : List String)
    → has_parts parts ≡ true
    → join (prepend c parts) ≡ String.◌∷◌ c (join parts)
unfolding join
join-prepend c [] h = absurd (ground arith)
join-prepend c (part ∷ []) h = refl
join-prepend c (part ∷ next ∷ parts) h = cons-append c part ("/" <> join (next ∷ parts))

join-split : (s : String) → join (split s) ≡ s
unfolding split join
join-split String.[] = refl
join-split (String.◌∷◌ c s) = elim (Bool-cases (code c == b'/')) [
  | inl slash ↦
      (let e : c ≡ "/" = Char-path c "/" (ground arith) in
        rw slash (
          join-slash (split s) (split-has_parts s)
          ∙ (ap (λ d. String.◌∷◌ d (join (split s))) (sym e)
              ∙ ap (λ t. String.◌∷◌ c t) (join-split s))))
  | inr other ↦
      rw other
        (join-prepend c (split s) (split-has_parts s) ∙ ap (λ t. String.◌∷◌ c t) (join-split s))
]

kind_of-value :
    (kind : TopicKind)
    → (kind_of (join (split (value kind))) ≡ some kind)
      × ((length (split (value kind)) == 1 || length (split (value kind)) == 2) ≡ true)
unfolding kind_of join split
kind_of-value state = (refl, refl)
kind_of-value set = (refl, refl)
kind_of-value ack = (refl, refl)
kind_of-value telemetry = (refl, refl)
kind_of-value status = (refl, refl)
kind_of-value control_command = (refl, refl)
kind_of-value control_request = (refl, refl)
kind_of-value control_reply = (refl, refl)

value-kind_of : (raw : String) (kind : TopicKind) → kind_of raw ≡ some kind → raw ≡ value kind
unfolding kind_of
value-kind_of raw kind h = ground (
  arith,
  eq_iff raw "state",
  eq_iff raw "set",
  eq_iff raw "ack",
  eq_iff raw "telemetry",
  eq_iff raw "status",
  eq_iff raw "control/command",
  eq_iff raw "control/request",
  eq_iff raw "control/reply",
)

-- The whole topic in its parts.
split-topic :
    (house device : String) (kind : TopicKind)
    → is_topic_identifier house ≡ true
    → is_topic_identifier device ≡ true
    → split (topic_root <> ("/" <> (house <> ("/" <> (device <> ("/" <> value kind))))))
      ≡ "kzhome" ∷ "v1" ∷ house ∷ device ∷ split (value kind)
unfolding is_topic_identifier
split-topic house device kind h d =
    let rest = device <> ("/" <> value kind) in
    let e : topic_root <> ("/" <> (house <> ("/" <> rest)))
        ≡ "kzhome" <> ("/" <> ("v1" <> ("/" <> (house <> ("/" <> rest))))) =
      append_assoc "kzhome" "/v1" ("/" <> (house <> ("/" <> rest)))
      ∙ ap (λ t. "kzhome" <> t) (append_assoc "/" "v1" ("/" <> (house <> ("/" <> rest)))) in
    ap split e
    ∙ (split-part "kzhome" _ refl
        ∙ ap (λ p. "kzhome" ∷ p)
            (split-part "v1" _ refl
              ∙ ap (λ p. "v1" ∷ p)
                  (split-part house _ (identifier-slashless 127 (codes house) h)
                    ∙ ap (λ p. house ∷ p)
                        (split-part device _ (identifier-slashless 127 (codes device) d)))))

read_parts-ok :
    (house device : String) (kind : TopicKind) (kind_parts : List String)
    → is_topic_identifier house ≡ true
    → is_topic_identifier device ≡ true
    → (length kind_parts == 1 || length kind_parts == 2) ≡ true
    → kind_of (join kind_parts) ≡ some kind
    → read_parts "kzhome" "v1" house device kind_parts
      ≡ ok (record { house_id = house; device_id = device; kind = kind })
unfolding read_parts
read_parts-ok house device kind kind_parts h d count k = rw (h, d, count, k) refl

build_topic-ok :
    (house device : String) (kind : TopicKind) (topic : String)
    → build_topic house device kind ≡ ok topic
    → (is_topic_identifier house ≡ true)
      × (is_topic_identifier device ≡ true)
      × (topic ≡ topic_root <> ("/" <> (house <> ("/" <> (device <> ("/" <> value kind))))))
unfolding build_topic
build_topic-ok house device kind topic h = (ground arith, ground arith, ground arith)

parse_topic-build_topic :
    (house device : String) (kind : TopicKind) (topic : String)
    → build_topic house device kind ≡ ok topic
    → parse_topic topic ≡ ok (record { house_id = house; device_id = device; kind = kind })
unfolding parse_topic
parse_topic-build_topic house device kind topic built =
    let (h, d, e) = build_topic-ok house device kind topic built in
    let (k, count) = kind_of-value kind in
    ap (λ t. parse_parts (split t)) e
    ∙ (ap parse_parts (split-topic house device kind h d)
        ∙ read_parts-ok house device kind (split (value kind)) h d count k)

-- The topic in its normal form, with "/" after the root's words.
abbrev normal : String → String → String → String
normal house device kind =
    "kzhome" <> ("/" <> ("v1" <> ("/" <> (house <> ("/" <> (device <> ("/" <> kind)))))))

normal-root :
    (house device kind : String)
    → normal house device kind
      ≡ topic_root <> ("/" <> (house <> ("/" <> (device <> ("/" <> kind)))))
normal-root house device kind =
    let rest = "/" <> (house <> ("/" <> (device <> ("/" <> kind)))) in
    sym (append_assoc "kzhome" "/v1" rest ∙ ap (λ t. "kzhome" <> t) (append_assoc "/" "v1" rest))

read_parts-fields :
    (root version house device : String) (kind_parts : List String) (p : ParsedTopic)
    → read_parts root version house device kind_parts ≡ ok p
    → (root ≡ "kzhome")
      × (version ≡ "v1")
      × (is_topic_identifier house ≡ true)
      × (is_topic_identifier device ≡ true)
      × (p.house_id ≡ house)
      × (p.device_id ≡ device)
      × (kind_of (join kind_parts) ≡ some p.kind)
      × (has_parts kind_parts ≡ true)
unfolding read_parts
read_parts-fields root version house device [] p h = absurd (ground arith)
read_parts-fields root version house device (part ∷ parts) p h =
    elim (Option-cases (kind_of (join (part ∷ parts)))) [
      | inl unknown ↦ absurd (ground arith)
      | inr (kind, e) ↦ (
        ground (arith, eq_iff root "kzhome"),
        ground (arith, eq_iff version "v1"),
        ground arith,
        ground arith,
        ground arith,
        ground arith,
        e ∙ ground arith,
        refl,
      )
    ]

-- Four parts and a kind, joined.
join-normal :
    (house device : String) (kind_parts : List String)
    → has_parts kind_parts ≡ true
    → join ("kzhome" ∷ "v1" ∷ house ∷ device ∷ kind_parts) ≡ normal house device (join kind_parts)
unfolding join
join-normal house device [] h = absurd (ground arith)
join-normal house device (part ∷ parts) h = refl

read_parts-normal :
    (root version house device : String) (kind_parts : List String) (p : ParsedTopic)
    → read_parts root version house device kind_parts ≡ ok p
    → (join (root ∷ version ∷ house ∷ device ∷ kind_parts)
        ≡ normal p.house_id p.device_id (value p.kind))
      × (is_topic_identifier p.house_id ≡ true)
      × (is_topic_identifier p.device_id ≡ true)
read_parts-normal root version house device kind_parts p h =
    let (r, v, i, j, e, f, k, some_parts) =
      read_parts-fields root version house device kind_parts p h in
    (
      ap₂ (λ x y. join (x ∷ y ∷ house ∷ device ∷ kind_parts)) r v
          ∙ (join-normal house device kind_parts some_parts
              ∙ (ap (normal house device) (value-kind_of (join kind_parts) p.kind k)
                  ∙ ap₂ (λ x y. normal x y (value p.kind)) (sym e) (sym f))),
      ap is_topic_identifier e ∙ i,
      ap is_topic_identifier f ∙ j,
    )

parse_parts-normal :
    (parts : List String) (p : ParsedTopic)
    → parse_parts parts ≡ ok p
    → (join parts ≡ normal p.house_id p.device_id (value p.kind))
      × (is_topic_identifier p.house_id ≡ true)
      × (is_topic_identifier p.device_id ≡ true)
parse_parts-normal (root ∷ version ∷ house ∷ device ∷ kind_parts) p h =
    read_parts-normal root version house device kind_parts p h
parse_parts-normal _ p h = absurd (ground arith)

build_topic-parse_topic :
    (topic : String) (p : ParsedTopic)
    → parse_topic topic ≡ ok p
    → build_topic p.house_id p.device_id p.kind ≡ ok topic
unfolding build_topic parse_topic
build_topic-parse_topic topic p h =
    let (whole, house, device) = parse_parts-normal (split topic) p h in
    let e =
      sym (normal-root p.house_id p.device_id (value p.kind)) ∙ (sym whole ∙ join-split topic) in
    ground arith

-- A topic is parsed to a house, a device and a kind exactly when it is the one that is built from them, and
-- those pass: what is built is parsed back, each house, device and kind has one topic, and no other spelling
-- of it is accepted.
pub topics_exact :
    (topic : String) (p : ParsedTopic)
    → (parse_topic topic ≡ ok p) ↔ (build_topic p.house_id p.device_id p.kind ≡ ok topic)
topics_exact topic p =
    (build_topic-parse_topic topic p, parse_topic-build_topic p.house_id p.device_id p.kind topic)
