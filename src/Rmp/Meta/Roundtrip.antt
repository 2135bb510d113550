-- ===== src/Rmp/Meta/Roundtrip.antt =====
-- Writing the metadata of crates/rmp/src/envelope.rs and reading it back.
use mathlib.Core.Option
use mathlib.Core.List.{append_assoc, append-nil}
use runloop.Prelude.{
  ℕ, String, ◌≡◌, refl, ◌∙◌, false, Option, none, some, List, [], ◌∷◌, ◌++◌, arith, string_eq,
}
use runloop.Prelude.Dict.{Dict, lookup, insert}
use runloop.Rmp.Error.{ok}
use runloop.Rmp.Meta.{
  EnvelopeMeta, Values, Entries, write_option, write_tags, write_extra, write_meta, Met, read_entry,
  read_entries, read_extra, met_none, read_meta, is_field, Fits, Clean, IsMeta,
}

insert-new :
    {Json : Type 0} (key : String) (j : Json) (d : Dict String Json)
    → lookup key d ≡ none
    → insert key j d ≡ d ++ (key, j) ∷ []
unfolding insert lookup
insert-new key j [] h = refl
insert-new key j (e ∷ d) h = ground (arith, insert-new key j d)

module _ {Json : Type 0} (V : Values Json) where
  read_entries-opening_id :
      (o : Option ℕ) (entries : Entries V)
      → Fits 128 o
      → read_entries V (write_option V "opening_id" V.of_u128 o ++ entries) (met_none V)
        ≡ read_entries V entries (record (met_none V) { opening_id = Option.map some o })
  unfolding read_entries read_entry
  read_entries-opening_id none entries h = refl
  read_entries-opening_id (some n) entries h = rw (V.to_u128-of_u128 n h) refl

  read_entries-priority :
      (o p : Option ℕ) (entries : Entries V)
      → Fits 8 p
      → read_entries V
          (write_option V "priority" V.of_u8 p ++ entries)
          (record (met_none V) { opening_id = Option.map some o })
        ≡ read_entries V entries
            (record (met_none V) { opening_id = Option.map some o; priority = Option.map some p })
  unfolding read_entries read_entry
  read_entries-priority o none entries h = refl
  read_entries-priority o (some n) entries h = rw (V.to_u8-of_u8 n h) refl

  abbrev met_tags : List String → Option (List String)
  met_tags [] = none
  met_tags texts = some texts

  read_entries-tags :
      (o p : Option ℕ) (texts : List String) (entries : Entries V)
      → let before = record (met_none V) {
        opening_id = Option.map some o;
        priority = Option.map some p;
      } in
        read_entries V (write_tags V texts ++ entries) before
        ≡ read_entries V entries (record before { tags = met_tags texts })
  unfolding read_entries read_entry
  read_entries-tags o p [] entries = refl
  read_entries-tags o p (t ∷ texts) entries = rw (V.to_strings-of_strings (t ∷ texts)) refl

  read_entry-extra :
      (key : String) (v : V.Value) (met : Met V)
      → is_field key ≡ false
      → read_entry V (key, v) met ≡ ok (record met { rest = met.rest ++ (key, v) ∷ [] })
  unfolding read_entry
  read_entry-extra key v met h = ground arith

  read_entries-extra :
      (before extra : Dict String Json) (met : Met V)
      → Clean before extra
      → read_entries V (write_extra V extra) met
        ≡ ok (record met { rest = met.rest ++ write_extra V extra })
  unfolding read_entries read_entry
  read_entries-extra before [] met h = rw (append-nil met.rest) refl
  read_entries-extra before ((key, j) ∷ extra) met h =
      let met' : Met V = record met { rest = met.rest ++ (key, V.of_json j) ∷ [] } in
      rw (read_entry-extra key (V.of_json j) met h.0) (
        read_entries-extra (before ++ (key, j) ∷ []) extra met' h.2
        ∙ rw (append_assoc met.rest ((key, V.of_json j) ∷ []) (write_extra V extra)) refl)

  read_extra-write_extra :
      (before extra : Dict String Json)
      → Clean before extra
      → read_extra V (write_extra V extra) before ≡ ok (before ++ extra)
  unfolding read_extra
  read_extra-write_extra before [] h = rw (append-nil before) refl
  read_extra-write_extra before ((key, j) ∷ extra) h =
      rw (V.to_json-of_json j, insert-new key j before h.1)
        (read_extra-write_extra (before ++ (key, j) ∷ []) extra h.2
          ∙ rw (append_assoc before ((key, j) ∷ []) extra) refl)

  get_or-some : (o : Option ℕ) → Option.get_or (Option.map some o) none ≡ o
  get_or-some none = refl
  get_or-some (some n) = refl

  get_or-met_tags : (texts : List String) → Option.get_or (met_tags texts) [] ≡ texts
  get_or-met_tags [] = refl
  get_or-met_tags (t ∷ texts) = refl

  read_entries-write_meta :
      (meta : EnvelopeMeta Json)
      → IsMeta meta
      → read_entries V (write_meta V meta) (met_none V)
        ≡ ok (record {
          opening_id = Option.map some meta.opening_id;
          priority = Option.map some meta.priority;
          tags = met_tags meta.tags;
          rest = write_extra V meta.extra;
        })
  unfolding write_meta
  read_entries-write_meta meta h =
      read_entries-opening_id meta.opening_id _ h.opening_id
      ∙ (read_entries-priority meta.opening_id meta.priority _ h.priority
          ∙ (read_entries-tags meta.opening_id meta.priority meta.tags _
              ∙ read_entries-extra [] meta.extra _ h.extra))

  -- What the derived code writes for metadata, it reads back.
  pub read_meta-write_meta :
      (meta : EnvelopeMeta Json) → IsMeta meta → read_meta V (write_meta V meta) ≡ ok meta
  unfolding read_meta
  read_meta-write_meta meta h =
      rw
        (
          read_entries-write_meta meta h,
          read_extra-write_extra [] meta.extra h.extra,
          get_or-some meta.opening_id,
          get_or-some meta.priority,
          get_or-met_tags meta.tags,
        )
        refl
