-- ===== src/Tests/Views.antt =====
-- A registry with one shared view.
use right_memory.Common.{is_space, strip, text_eq}
use right_memory.Share.Fields.{clean_text, is_share_id}
use right_memory.Share.Load.{get}
use right_memory.View.Models.{check_target, validate_connection, validate_heading_id}
use right_memory.View.Registry.{load_connection, load_target, put_connection, view_required_string}
use right_memory.Common.{◌≡◌, refl, none, List, [], ◌∷◌, Text, codes, ok}
use right_memory.Share.Fields.{text}
use right_memory.Share.Load.{no_part}
use right_memory.View.Registry.{
  Connections, connection_table, RawConnection, load_connections, no_target,
}
use right_memory.View.Registry.Sound.{AreValid, save_connections-load_connections}
use right_memory.View.Save.{save_connections}

abbrev raw_views : List (Text × RawConnection)
raw_views =
    (
      codes " a ",
      connection_table (("type", text (codes "file")) ∷ ("ref", text (codes "r ")) ∷ []) no_part,
    )
    ∷ []

abbrev views : Connections
views =
    (
      codes "a",
      record {
        heading_id = codes "a";
        view_type = codes "file";
        ref = codes "r";
        relationship = codes "human";
        maintainer = none;
        description = none;
        accepted_from = none;
        target = no_target;
      },
    )
    ∷ []

views_run : load_connections (λ v. []) raw_views [] ≡ ok views
unfolding load_connections validate_heading_id is_share_id strip is_space load_connection
    view_required_string get clean_text load_target validate_connection text_eq check_target
    put_connection
views_run = refl

views_example : AreValid views × ((content : Text) × (save_connections (λ t. t) views ≡ ok content))
views_example = save_connections-load_connections (λ t. t) (λ v. []) raw_views views_run
