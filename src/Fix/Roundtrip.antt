-- ===== src/Fix/Roundtrip.antt =====
-- What `FixParser::parse` makes of the texts that `FixMessage::to_fix_string` writes.
use nasdaq_order_book.Base.{
  ℕ, suc, ◌≡◌, ◌≢◌, refl, ◌∙◌, sym, ap, inl, inr, true, false, Bool-cases, none, some, [], ◌∷◌,
  ◌++◌, ◌==◌, if◌then◌else◌, arith, All, All-append, length, true-false, has, Distinct, has-append,
  Distinct-split,
}
use mathlib.Core.List.{append_assoc, append-nil}
use nasdaq_order_book.Base.Assoc.{keys, lookup, insert, lookup-insert}
use nasdaq_order_book.Fix.Text.{Text, unsigned_to_string}
use nasdaq_order_book.Fix.Numbers.{decimal-IsDigit}
use nasdaq_order_book.Fix.Tag
use nasdaq_order_book.Fix.Message.{
  soh, FixMessage, empty_message, is_new, add_field, has_field, is_special, written, written_if,
  body_of, checksum, three_digits, head_and_body, to_fix_string,
}
use nasdaq_order_book.Fix.Parser.{required, parse}
use nasdaq_order_book.Fix.Checksum.{checksum_small}
use nasdaq_order_book.Fix.Wire.{Fields, IsField, encode, add_all, digits-All, parse_loop-encode}

-- The message that holds just these fields, in this order.
abbrev pub holding : Fields → FixMessage
holding fs = record { fields = fs; field_order = keys fs }

insert-append :
    (tag : ℕ) (value : Text) (fs : Fields)
    → has tag (keys fs) ≡ false
    → insert tag value fs ≡ fs ++ (tag, value) ∷ []
unfolding insert keys
insert-append tag value [] out = refl
insert-append tag value ((t, v) ∷ fs) out =
    let other : (tag == t) ≡ false = ground (arith, out) in
    rw (other, insert-append tag value fs (ground (arith, out))) refl

lookup-absent : (tag : ℕ) (fs : Fields) → has tag (keys fs) ≡ false → lookup tag fs ≡ none
unfolding lookup keys
lookup-absent tag [] out = refl
lookup-absent tag ((t, v) ∷ fs) out =
    let other : (tag == t) ≡ false = ground (arith, out) in
    rw (other) (lookup-absent tag fs (ground (arith, out)))

keys-append : (fs gs : Fields) → keys (fs ++ gs) ≡ keys fs ++ keys gs
unfolding keys
keys-append [] gs = refl
keys-append ((t, v) ∷ fs) gs = ap (λ ks. t ∷ ks) (keys-append fs gs)

add_field-holding :
    (fs : Fields) (tag : ℕ) (value : Text)
    → has tag (keys fs) ≡ false
    → add_field (holding fs) (record { tag = tag; value = value })
      ≡ holding (fs ++ (tag, value) ∷ [])
unfolding add_field is_new keys
add_field-holding fs tag value out =
    rw
      (insert-append tag value fs out, lookup-absent tag fs out, keys-append fs ((tag, value) ∷ []))
      refl

add_all-holding :
    (fs gs : Fields) → Distinct (keys (fs ++ gs)) → add_all (holding fs) gs ≡ holding (fs ++ gs)
unfolding add_all keys
add_all-holding fs [] distinct = ap holding (sym (append-nil fs))
add_all-holding fs ((tag, value) ∷ gs) distinct =
    let apart =
      Distinct-split (keys fs) (tag ∷ keys gs)
        (rw (keys-append fs ((tag, value) ∷ gs)) at distinct) in
    let new : has tag (keys fs) ≡ false = ground (arith, apart.2 tag) in
    let next = append_assoc fs ((tag, value) ∷ []) gs in
    rw (add_field-holding fs tag value new)
      (add_all-holding (fs ++ (tag, value) ∷ []) gs (rw (next) distinct) ∙ ap holding next)

-- The fields that the serialisation does not write itself
unfoldable pub ordinary : Fields → Fields
ordinary [] = []
ordinary ((tag, value) ∷ fs) =
    let rest = ordinary fs in if is_special tag then rest else (tag, value) ∷ rest

-- What is sent in front of the checksum.
abbrev pub sent_first : Text → Fields → Fields
sent_first version fs =
    (Tag.begin_string, version)
    ∷ (Tag.body_length, unsigned_to_string (length (encode (ordinary fs))))
    ∷ ordinary fs

-- What is sent for the fields `fs`, of which `version` is the first: the length of the body and the
-- checksum are those of the text.
abbrev pub sent : Text → Fields → Fields
sent version fs =
    sent_first version fs
    ++ (Tag.check_sum, three_digits (checksum (encode (sent_first version fs)))) ∷ []

lookup-All :
    (tag : ℕ) (value : Text) (gs fs : Fields)
    → has tag (keys fs) ≡ false
    → All (λ f. lookup f.0 gs ≡ some f.1) fs
    → All (λ f. lookup f.0 ((tag, value) ∷ gs) ≡ some f.1) fs
unfolding keys lookup
lookup-All tag value gs [] out h = tt
lookup-All tag value gs ((t, v) ∷ fs) out h =
    let other : (t == tag) ≡ false = ground (arith, out) in
    (rw (other) h.0, lookup-All tag value gs fs (ground (arith, out)) h.1)

lookup-Distinct : (fs : Fields) → Distinct (keys fs) → All (λ f. lookup f.0 fs ≡ some f.1) fs
unfolding keys lookup
lookup-Distinct [] distinct = tt
lookup-Distinct ((t, v) ∷ fs) distinct =
    (ground arith, lookup-All t v fs fs distinct.0 (lookup-Distinct fs distinct.1))

body_of-ordinary :
    (gs fs : Fields)
    → All (λ f. lookup f.0 gs ≡ some f.1) fs
    → body_of gs (keys fs) ≡ encode (ordinary fs)
unfolding body_of keys ordinary encode written_if
body_of-ordinary gs [] h = refl
body_of-ordinary gs ((t, v) ∷ fs) h = elim (Bool-cases (is_special t)) [
  | inl special ↦ rw (special) (body_of-ordinary gs fs h.1)
  | inr other ↦ rw (other, h.0, body_of-ordinary gs fs h.1) refl
]

encode-append : (fs gs : Fields) → encode (fs ++ gs) ≡ encode fs ++ encode gs
unfolding encode
encode-append [] gs = refl
encode-append ((t, v) ∷ fs) gs =
    ap (λ s. written t v ++ s) (encode-append fs gs)
    ∙ sym (append_assoc (written t v) (encode fs) (encode gs))

head_and_body-holding :
    (version : Text) (fs : Fields)
    → Distinct (keys fs)
    → lookup Tag.begin_string fs ≡ some version
    → head_and_body (holding fs) ≡ encode (sent_first version fs)
unfolding head_and_body encode written_if
head_and_body-holding version fs distinct found =
    rw (found, body_of-ordinary fs fs (lookup-Distinct fs distinct))
      (append_assoc (written Tag.begin_string version)
        (written Tag.body_length (unsigned_to_string (length (encode (ordinary fs)))))
        (encode (ordinary fs)))

to_fix_string-holding :
    (version : Text) (fs : Fields)
    → Distinct (keys fs)
    → lookup Tag.begin_string fs ≡ some version
    → to_fix_string (holding fs) ≡ encode (sent version fs)
unfolding to_fix_string encode
to_fix_string-holding version fs distinct found =
    let first = sent_first version fs in
    let digits = three_digits (checksum (encode first)) in
    rw (head_and_body-holding version fs distinct found) (
      sym (
        encode-append first ((Tag.check_sum, digits) ∷ [])
        ∙ ap (λ s. encode first ++ s) (append-nil (written Tag.check_sum digits))))

none-some : {v : Text} → none ≢ some v
none-some h = ground arith

found-IsField :
    (tag : ℕ) (value : Text) (fs : Fields)
    → lookup tag fs ≡ some value
    → All IsField fs
    → All (λ c. (c == soh) ≡ false) value
unfolding lookup
found-IsField tag value [] found h = absurd (none-some found)
found-IsField tag value ((t, v) ∷ fs) found h = elim (Bool-cases (tag == t)) [
  | inl same ↦ let e : v ≡ value = ground (arith, found, same) in rw (sym e) h.0.1
  | inr other ↦ found-IsField tag value fs (ground (arith, found, other)) h.1
]

ordinary-All : (fs : Fields) → All IsField fs → All IsField (ordinary fs)
unfolding ordinary
ordinary-All [] h = tt
ordinary-All ((t, v) ∷ fs) h = elim (Bool-cases (is_special t)) [
  | inl special ↦ rw (special) (ordinary-All fs h.1)
  | inr other ↦ rw (other) (h.0, ordinary-All fs h.1)
]

sent-All :
    (version : Text) (fs : Fields)
    → lookup Tag.begin_string fs ≡ some version
    → All IsField fs
    → All IsField (sent version fs)
unfolding unsigned_to_string three_digits
sent-All version fs found h =
    let n = length (encode (ordinary fs)) in
    let c = checksum (encode (sent_first version fs)) in
    let small = checksum_small (encode (sent_first version fs)) in
    (
      (omega arith, found-IsField Tag.begin_string version fs found h),
      (
        (
          omega arith,
          digits-All soh (unsigned_to_string n) (inl (omega arith))
              (decimal-IsDigit (suc n) n [] tt),
        ),
        All-append IsField (ordinary fs) ((Tag.check_sum, three_digits c) ∷ []) (ordinary-All fs h)
            ((omega arith, (ground arith, (ground arith, (ground arith, tt)))), tt),
      ),
    )

has_field-add_field :
    (m : FixMessage) (tag t : ℕ) (v : Text)
    → has_field m tag ≡ true
    → has_field (add_field m (record { tag = t; value = v })) tag ≡ true
unfolding has_field add_field is_new
has_field-add_field m tag t v h =
    rw (lookup-insert)
      (elim (Bool-cases (t == tag)) [ inl same ↦ rw (same) refl | inr other ↦ rw (other) h ])

has_field-here :
    (m : FixMessage) (tag t : ℕ) (v : Text)
    → (tag == t) ≡ true
    → has_field (add_field m (record { tag = t; value = v })) tag ≡ true
unfolding has_field add_field is_new
has_field-here m tag t v same =
    let here : (t == tag) ≡ true = ground (arith, same) in rw (lookup-insert, here) refl

-- A field that is there stays, and one that is added is there.
has_field-kept :
    (m : FixMessage) (tag : ℕ) (fs : Fields)
    → has_field m tag ≡ true
    → has_field (add_all m fs) tag ≡ true
unfolding add_all
has_field-kept m tag [] h = h
has_field-kept m tag ((t, v) ∷ fs) h =
    has_field-kept (add_field m (record { tag = t; value = v })) tag fs
      (has_field-add_field m tag t v h)

has_field-added :
    (m : FixMessage) (tag : ℕ) (fs : Fields)
    → has tag (keys fs) ≡ true
    → has_field (add_all m fs) tag ≡ true
unfolding add_all keys
has_field-added m tag [] h = absurd (true-false (sym h))
has_field-added m tag ((t, v) ∷ fs) h = elim (Bool-cases (tag == t)) [
  | inl same ↦
      has_field-kept (add_field m (record { tag = t; value = v })) tag fs
        (has_field-here m tag t v same)
  | inr other ↦
      has_field-added (add_field m (record { tag = t; value = v })) tag fs
        (ground (arith, h, other))
]

has-ordinary :
    (tag : ℕ) (value : Text) (fs : Fields)
    → is_special tag ≡ false
    → lookup tag fs ≡ some value
    → has tag (keys (ordinary fs)) ≡ true
unfolding keys ordinary lookup is_special
has-ordinary tag value [] usual found = absurd (none-some found)
has-ordinary tag value ((t, v) ∷ fs) usual found = elim (Bool-cases (tag == t)) [
  | inl same ↦
      let e : tag ≡ t = ground (arith, same) in
      let plain : is_special t ≡ false = ap is_special (sym e) ∙ usual in
      rw (plain) (rw (same) refl)
  | inr other ↦
      let rest = has-ordinary tag value fs usual (ground (arith, found, other)) in
      elim (Bool-cases (is_special t)) [
        | inl special ↦ rw (special) rest
        | inr plain ↦ rw (plain) (ground (arith, rest))
      ]
]

has-sent :
    (version type : Text) (fs : Fields)
    → lookup Tag.msg_type fs ≡ some type
    → has Tag.msg_type (keys (sent version fs)) ≡ true
unfolding keys is_special
has-sent version type fs typed =
    let digits = three_digits (checksum (encode (sent_first version fs))) in
    let last : Fields = (Tag.check_sum, digits) ∷ [] in
    let found = has-ordinary Tag.msg_type type fs refl typed in
    rw
      (
        keys-append (ordinary fs) last,
        has-append Tag.msg_type (keys (ordinary fs)) (keys last),
        found,
      )
      refl

-- A message that is built of fields with different tags, a version and a type among them, whose tags
-- are not negative and whose values have no separator, is read back from its text: the version comes
-- first, then the length of the body, the other fields with their values in their order, and the
-- checksum of the text before it.
pub parse-to_fix_string :
    (version type : Text) (fs : Fields)
    → Distinct (keys fs)
    → All IsField fs
    → lookup Tag.begin_string fs ≡ some version
    → lookup Tag.msg_type fs ≡ some type
    → parse (to_fix_string (add_all empty_message fs))
      ≡ some (add_all empty_message (sent version fs))
unfolding parse required keys
parse-to_fix_string version type fs distinct h first typed =
    let built : add_all empty_message fs ≡ holding fs = add_all-holding [] fs distinct in
    let text = to_fix_string-holding version fs distinct first in
    let read = parse_loop-encode empty_message (sent version fs) (sent-All version fs first h) in
    let versioned = has_field-added empty_message Tag.begin_string (sent version fs) refl in
    let has_type =
      has_field-added empty_message Tag.msg_type (sent version fs)
        (has-sent version type fs typed) in
    rw (built, text, read, versioned, has_type) refl
