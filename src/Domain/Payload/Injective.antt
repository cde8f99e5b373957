-- ===== src/Domain/Payload/Injective.antt =====
-- What the canonical payload determines (internal/domain/event.go).
use mathlib.Core.List.{Perm, append_assoc}
use mathlib.Core.List.Perm
use chronometrics.Common.{
  Bool-cases, inl, inr, ℕ, ◌≡◌, ◌≢◌, refl, sym, subst, ◌∙◌, ◌↔◌, Option, none, some, List, [], ◌∷◌,
  ◌++◌, arith, Text, All,
}
use chronometrics.Common.Sorting.{
  text_leb, sort, sort_strings, sort_strings-perm, insert_sorted, sort-perm,
}
use chronometrics.Domain.Json.{Platform, Result, ok, err}
use chronometrics.Domain.Event.{RawEvent, Event}
use chronometrics.Domain.Payload.{write_all, payload, compute_payload_hash, to_event}

-- A text without a null byte.
abbrev pub NoNull : Text → Type 0
NoNull = All (λ b. b ≢ 0)

-- The text before the first null byte, and the text after it.
split-null : (s t r q : Text) → NoNull s → NoNull t → s ++ 0 ∷ r ≡ t ++ 0 ∷ q → (s ≡ t) × (r ≡ q)
split-null [] [] r q h k e = ground arith
split-null [] (b ∷ t) r q h k e = absurd (k.0 (ground arith))
split-null (a ∷ s) [] r q h k e = absurd (h.0 (ground arith))
split-null (a ∷ s) (b ∷ t) r q h k e =
    let (same, rest) = split-null s t r q h.1 k.1 (cc) in
    let first : a ≡ b = cc in (ground arith, rest)

-- A text without a null byte is not one with a null byte inside.
null_inside : (m r q : Text) → NoNull m → m ≡ r ++ 0 ∷ q → ⊥
null_inside [] [] q h e = cc
null_inside [] (a ∷ r) q h e = cc
null_inside (b ∷ m) [] q h e = h.0 (cc)
null_inside (b ∷ m) (a ∷ r) q h e = null_inside m r q h.1 (cc)

-- A payload's end with one more tag has one more null byte.
one_more_tag :
    (y : Text) (ys : List Text) (p p' m m' : Text)
    → NoNull y
    → NoNull p
    → NoNull m
    → p ++ 0 ∷ m ≡ write_all (y ∷ ys) ++ (p' ++ 0 ∷ m')
    → ⊥
one_more_tag y ys p p' m m' hy hp hm e =
    let rest =
      (split-null p y m (write_all ys ++ (p' ++ 0 ∷ m')) hp hy
        (e ∙ append_assoc y (0 ∷ write_all ys) (p' ++ 0 ∷ m'))).1 in
    null_inside m (write_all ys ++ p') m' hm (rest ∙ sym (append_assoc (write_all ys) p' (0 ∷ m')))

-- The tags, the priority and the metadata are read back from the end of the payload.
split-write_all :
    (xs ys : List Text) (p p' m m' : Text)
    → All NoNull xs
    → All NoNull ys
    → NoNull p
    → NoNull p'
    → NoNull m
    → NoNull m'
    → write_all xs ++ (p ++ 0 ∷ m) ≡ write_all ys ++ (p' ++ 0 ∷ m')
    → (xs ≡ ys) × (p ≡ p') × (m ≡ m')
split-write_all [] [] p p' m m' hx hy hp hp' hm hm' e =
    let (same, rest) = split-null p p' m m' hp hp' e in (refl, same, rest)
split-write_all [] (y ∷ ys) p p' m m' hx hy hp hp' hm hm' e =
    absurd (one_more_tag y ys p p' m m' hy.0 hp hm e)
split-write_all (x ∷ xs) [] p p' m m' hx hy hp hp' hm hm' e =
    absurd (one_more_tag x xs p' p m' m hx.0 hp' hm' (sym e))
split-write_all (x ∷ xs) (y ∷ ys) p p' m m' hx hy hp hp' hm hm' e =
    let (same, rest) =
      split-null x y (write_all xs ++ (p ++ 0 ∷ m)) (write_all ys ++ (p' ++ 0 ∷ m')) hx.0 hy.0
        (sym (append_assoc x _ _) ∙ e ∙ append_assoc y _ _) in
    let (tags, priority, metadata) = split-write_all xs ys p p' m m' hx.1 hy.1 hp hp' hm hm' rest in
    (cc, priority, metadata)

All-insert_sorted :
    (x : Text) (xs : List Text)
    → NoNull x
    → All NoNull xs
    → All NoNull (insert_sorted text_leb x xs)
unfolding insert_sorted
All-insert_sorted x [] h k = (h, tt)
All-insert_sorted x (y ∷ ys) h k = elim (Bool-cases (text_leb x y)) [
  | inl below ↦ rw below (h, k)
  | inr above ↦ rw above (k.0, All-insert_sorted x ys h k.1)
]

All-sort_strings : (xs : List Text) → All NoNull xs → All NoNull (sort_strings xs)
unfolding sort_strings
All-sort_strings [] h = tt
All-sort_strings (x ∷ xs) h = All-insert_sorted x (sort text_leb xs) h.0 (All-sort_strings xs h.1)

-- The fields that `ComputePayloadHash` writes.
pub record Content : Type 0 where
  pub channel : Text
  pub campaign_id : Text
  pub tags : List Text
  pub priority : Text
  pub metadata : Text

pub record IsNullFree (c : Content) : Type 0 where
  pub channel : NoNull c.channel
  pub campaign_id : NoNull c.campaign_id
  pub tags : All NoNull c.tags
  pub priority : NoNull c.priority
  pub metadata : NoNull c.metadata

-- The same fields, with the tags in any order.
pub record SameContent (c d : Content) : Type 0 where
  pub channel : c.channel ≡ d.channel
  pub campaign_id : c.campaign_id ≡ d.campaign_id
  pub tags : Perm c.tags d.tags
  pub priority : c.priority ≡ d.priority
  pub metadata : c.metadata ≡ d.metadata

abbrev pub payload_of : Content → Text
payload_of c = payload c.channel c.campaign_id c.tags c.priority c.metadata

Perm-sort_strings : {xs ys : List Text} → sort_strings xs ≡ sort_strings ys → Perm xs ys
unfolding sort_strings
Perm-sort_strings {xs} {ys} e =
    Perm.trans (Perm.symm (sort-perm text_leb xs))
      (subst (λ l. Perm l ys) (sym e) (sort-perm text_leb ys))

same-content :
    (c d : Content) → IsNullFree c → IsNullFree d → payload_of c ≡ payload_of d → SameContent c d
unfolding payload
same-content c d hc hd e =
    let (channel, rest) = split-null c.channel d.channel _ _ hc.channel hd.channel e in
    let (campaign, rest') =
      split-null c.campaign_id d.campaign_id _ _ hc.campaign_id hd.campaign_id rest in
    let (tags, priority, metadata) =
      split-write_all (sort_strings c.tags) (sort_strings d.tags) c.priority d.priority c.metadata
        d.metadata (All-sort_strings c.tags hc.tags) (All-sort_strings d.tags hd.tags) hc.priority
        hd.priority hc.metadata hd.metadata rest' in
    record {
      channel = channel;
      campaign_id = campaign;
      tags = Perm-sort_strings tags;
      priority = priority;
      metadata = metadata;
    }

payload-same : (c d : Content) → SameContent c d → payload_of c ≡ payload_of d
unfolding payload
payload-same c d h = rw (h.channel, h.campaign_id, sort_strings-perm h.tags, h.priority, h.metadata)

longer : (a b : Text) → a ++ 0 ∷ b ≡ a → ⊥
longer [] b e = cc
longer (x ∷ a) b e = longer a b (cc)

-- Where no field holds a null byte, two payloads are equal exactly if the fields are, up to the
-- order of the tags.
pub payload_iff :
    (c d : Content) → IsNullFree c → IsNullFree d → (payload_of c ≡ payload_of d) ↔ SameContent c d
unfolding payload
payload_iff c d hc hd = (same-content c d hc hd, payload-same c d)

-- With null bytes in the fields the payload is ambiguous: a null byte in the channel moves the
-- rest of the channel into the campaign id, and the campaign id into the tags, and the payload
-- stays the same although the channels differ.
pub payload_ambiguous :
    (a b c priority metadata : Text)
    → (payload (a ++ 0 ∷ b) c [] priority metadata ≡ payload a b (c ∷ []) priority metadata)
      × (a ++ 0 ∷ b ≢ a)
unfolding payload sort_strings
payload_ambiguous a b c priority metadata = (simp append_assoc, λ e. longer a b e)

-- What the table's sorting key makes of an event.
pub record DedupKey : Type 0 where
  pub event_name : Text
  pub user_id : Text
  pub timestamp_ms : ℕ
  pub payload_hash : ℕ

abbrev pub dedup_key : Result Event → Option DedupKey
dedup_key (err e) = none
dedup_key (ok ev) = some (record {
  event_name = ev.event_name;
  user_id = ev.user_id;
  timestamp_ms = ev.timestamp_ms;
  payload_hash = ev.payload_hash;
})

-- Two raw events that differ only in the order of their tags get the same deduplication key, or
-- are both refused.
pub dedup_key-perm :
    (p : Platform) (raw : RawEvent) {xs ys : List Text}
    → Perm xs ys
    → dedup_key (to_event p (record raw { tags = some xs }))
      ≡ dedup_key (to_event p (record raw { tags = some ys }))
unfolding to_event compute_payload_hash payload
dedup_key-perm p raw {xs} {ys} h = ground (arith, sort_strings-perm h)

-- Absent tags count as no tags and an absent priority as the empty one: the deduplication key
-- does not tell them apart.
pub dedup_key-absent :
    (p : Platform) (raw : RawEvent)
    → dedup_key (to_event p (record raw { tags = none; priority = none }))
      ≡ dedup_key (to_event p (record raw { tags = some []; priority = some [] }))
unfolding to_event compute_payload_hash payload
dedup_key-absent p raw = ground arith
