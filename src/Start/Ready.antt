-- ===== src/Start/Ready.antt =====
-- What a start of main.go guarantees to the handlers.
use longclaw.Base.{ℕ, ◌≡◌, ◌≢◌, refl, true, Option, some, List, ◌∷◌, Bytes, codes, ok, panic}
use longclaw.Config.{load_config}
use longclaw.Iso.Spec.{IsoSpec, empty_spec, fill_map, filled, load_specs_from_file}
use longclaw.Iso.Spec.Load.{HasFields}
use longclaw.Network.Clients.{Server}
use longclaw.Network.Load.{Card, IsoMsgTemplate}
use longclaw.Database.Schema.{Schema, new_stress_test_db, refund_columns}
use longclaw.Database.Schema.Columns.{HasColumns, HasKeys}
use longclaw.Database.Schema.Start.{IsOld, new_stress_test_db-Started}
use longclaw.Reference.Data.{
  LoadError, file_path, checked_cards, load_cards, load_templates, get_random_card,
}
use longclaw.Runner.{reserve, new_runner}
use longclaw.Start.{
  World, DbFile, Parts, App, find_base_path, new_batch_writer, load_parts, listens, start,
}

module _ {File : Type 0} (open_file : Bytes → Option File)
    (decode : File → IsoSpec → Option IsoSpec) (w : World) where
  -- What the handlers rely on.
  pub record IsReady (app : App) : Type 0 where
    pub configured : app.parts.config ≡ load_config w.lookup_env w.join app.parts.base_path
    pub cards : (draw : ℕ) → get_random_card {E = LoadError} app.cards draw ≢ panic
    pub keys_there : HasKeys app.parts.db_file.schema
    pub refund_columns_there : HasColumns app.parts.db_file.schema refund_columns
    pub migrated : new_stress_test_db app.parts.db_file.schema ≡ ok app.parts.db_file.schema
    pub fields : HasFields open_file decode app.parts.config.data_files.spec_path app.parts.iso_spec
    pub free : (reserve app.stress_runner).1 ≡ true

module _ {File : Type 0} (open_file : Bytes → Option File)
    (decode : File → IsoSpec → Option IsoSpec) (w : World) where
  -- What is read before the server is made.
  record IsLoaded (parts : Parts) : Type 0 where
    configured : parts.config ≡ load_config w.lookup_env w.join parts.base_path
    keys_there : HasKeys parts.db_file.schema
    refund_columns_there : HasColumns parts.db_file.schema refund_columns
    migrated : new_stress_test_db parts.db_file.schema ≡ ok parts.db_file.schema
    fields : HasFields open_file decode parts.config.data_files.spec_path parts.iso_spec

  -- What a start reads is there.
  pub record CanStart : Type 0 where
    pub base_path : Bytes
    pub based : find_base_path w ≡ ok base_path
    pub file : DbFile
    pub opened : w.open_db (load_config w.lookup_env w.join base_path).database.path ≡ some file
    pub old : IsOld file.schema
    pub templates : List IsoMsgTemplate
    pub has_templates :
        w.read_templates (
          file_path
            (load_config w.lookup_env w.join base_path).data_files.templates_path
            (codes "template_messages.json"))
        ≡ some templates
    pub spec_file : File
    pub has_spec :
        open_file (load_config w.lookup_env w.join base_path).data_files.spec_path ≡ some spec_file
    pub decoded : IsoSpec
    pub is_spec : decode spec_file empty_spec ≡ some decoded
    pub card : Card
    pub more_cards : List Card
    pub has_cards :
        w.read_cards (
          file_path
            (load_config w.lookup_env w.join base_path).data_files.cards_path
            (codes "test_cards.json"))
        ≡ some (card ∷ more_cards)

  -- With all that it reads there and a listener that serves, the program comes to serve.
  pub start_succeeds :
      (iso_server : Server) (c : CanStart)
      → (app : App) × (start open_file decode w (listens iso_server) ≡ ok app)
        × (app.parts.base_path ≡ c.base_path)
        × (app.cards ≡ c.card ∷ c.more_cards)
        × (app.parts.templates ≡ c.templates)
  unfolding start load_parts load_templates load_specs_from_file load_cards checked_cards filled
  start_succeeds iso_server c =
      let (schema, e, _, _, _, _) = new_stress_test_db-Started c.file.schema c.old in
      (
        record {
          parts = record {
            base_path = c.base_path;
            config = load_config w.lookup_env w.join c.base_path;
            db_file = record { schema = schema; tables = c.file.tables };
            templates = c.templates;
            iso_spec = record c.decoded {
              field_def_map = fill_map c.decoded.field_def_map c.decoded.field_definitions;
            };
          };
          db = new_batch_writer c.file.tables;
          iso_server = iso_server;
          stress_runner = new_runner;
          cards = c.card ∷ c.more_cards;
        },
        rw
            (
              start, load_parts, c.based, c.opened, e, load_templates, c.has_templates,
              load_specs_from_file, c.has_spec, c.is_spec, filled, load_cards, c.has_cards,
              checked_cards,
            )
            refl,
        refl,
        refl,
        refl,
      )
