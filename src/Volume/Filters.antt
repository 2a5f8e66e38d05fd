-- ===== src/Volume/Filters.antt =====
-- `VolumeStore::matches_filter`, `matches_filters` and `list_filtered`.
use kc_docker.Shared.{
  Bool, true, false, ◌&&◌, Option, none, some, List, [], ◌∷◌, if◌then◌else◌, Text, codes, text_eq,
  is_empty, split_once,
}
use kc_docker.Shared.Maps.{get}
use kc_docker.Volume.{VolumeRecord, VolumeStore}

abbrev is_some_of : Option Text → Bool
is_some_of none = false
is_some_of (some v) = true

abbrev equals : Text → Option Text → Bool
equals t none = false
equals t (some v) = text_eq v t

-- The filter `label=key=value`, or `label=key`.
abbrev has_label : VolumeRecord → Text → Option (Text × Text) → Bool
has_label vol value none = is_some_of (get vol.labels value)
has_label vol value (some (key, wanted)) = equals wanted (get vol.labels key)

abbrev filter_by_key : VolumeRecord → Option (Text × Text) → Bool
filter_by_key vol none = true
filter_by_key vol (some (key, value)) =
    if text_eq key (codes "name")
    then text_eq vol.name value
    else if text_eq key (codes "driver")
    then text_eq vol.driver value
    else if text_eq key (codes "label")
    then has_label vol value (split_once value b'=')
    else if text_eq key (codes "dangling")
    then text_eq value (codes "true") && is_empty vol.labels
    else true

unfoldable pub matches_filter : VolumeRecord → Text → Bool
matches_filter vol filter = filter_by_key vol (split_once filter b'=')

unfoldable pub matches_filters : VolumeRecord → List Text → Bool
matches_filters vol [] = true
matches_filters vol (filter ∷ filters) = matches_filter vol filter && matches_filters vol filters

abbrev filtered : List Text → List VolumeRecord → List VolumeRecord
filtered filters [] = []
filtered filters (v ∷ volumes) =
    let rest = filtered filters volumes in if matches_filters v filters then v ∷ rest else rest

unfoldable pub list_filtered : List Text → VolumeStore → List VolumeRecord
list_filtered filters s = filtered filters s.volumes
