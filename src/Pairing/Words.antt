-- ===== src/Pairing/Words.antt =====
-- The word list of src/pairing.rs.
use Prim.Native.String.{String}
use mathlib.Core.List.{List, [], ◌∷◌, map}
use sape.Text.{Text, codes}

abbrev spelled : List String
spelled =
    "acorn" ∷ "adapt" ∷ "adobe" ∷ "agent" ∷ "agile" ∷ "amber" ∷ "anchor" ∷ "apple" ∷ "april"
    ∷ "arrow" ∷ "atlas" ∷ "audio" ∷ "baker" ∷ "basic" ∷ "beach" ∷ "beacon" ∷ "berry" ∷ "bison"
    ∷ "blade" ∷ "blaze" ∷ "block" ∷ "bloom" ∷ "board" ∷ "brave" ∷ "brick" ∷ "brook" ∷ "brush"
    ∷ "cabin" ∷ "cable" ∷ "camel" ∷ "candy" ∷ "cannon" ∷ "cargo" ∷ "cedar" ∷ "charm" ∷ "chess"
    ∷ "chili" ∷ "cider" ∷ "civic" ∷ "clean" ∷ "clerk" ∷ "cloud" ∷ "coast" ∷ "color" ∷ "comet"
    ∷ "coral" ∷ "crown" ∷ "curve" ∷ "daily" ∷ "daisy" ∷ "delta" ∷ "diner" ∷ "dolphin" ∷ "donut"
    ∷ "drift" ∷ "eager" ∷ "eagle" ∷ "earth" ∷ "elder" ∷ "ember" ∷ "engine" ∷ "entry" ∷ "equal"
    ∷ "falcon" ∷ "fancy" ∷ "ferry" ∷ "fiber" ∷ "field" ∷ "final" ∷ "flame" ∷ "flash" ∷ "flora"
    ∷ "focus" ∷ "forest" ∷ "fossil" ∷ "frame" ∷ "frost" ∷ "galaxy" ∷ "gamma" ∷ "garden" ∷ "gentle"
    ∷ "glade" ∷ "glider" ∷ "globe" ∷ "golden" ∷ "grain" ∷ "grape" ∷ "grass" ∷ "groove" ∷ "harbor"
    ∷ "hazel" ∷ "helium" ∷ "hollow" ∷ "honey" ∷ "hotel" ∷ "humble" ∷ "iceberg" ∷ "iconic" ∷ "igloo"
    ∷ "island" ∷ "ivory" ∷ "jacket" ∷ "jelly" ∷ "jewel" ∷ "jolly" ∷ "jungle" ∷ "kernel" ∷ "kiwi"
    ∷ "ladder" ∷ "laser" ∷ "legend" ∷ "lemon" ∷ "level" ∷ "linen" ∷ "lively" ∷ "lizard" ∷ "lobster"
    ∷ "locust" ∷ "lunar" ∷ "magnet" ∷ "mango" ∷ "maple" ∷ "market" ∷ "meadow" ∷ "melon" ∷ "merit"
    ∷ "meteor" ∷ "mint" ∷ "mosaic" ∷ "motion" ∷ "mount" ∷ "museum" ∷ "nacho" ∷ "native" ∷ "nectar"
    ∷ "nickel" ∷ "noble" ∷ "noodle" ∷ "normal" ∷ "oasis" ∷ "ocean" ∷ "olive" ∷ "onyx" ∷ "opal"
    ∷ "orbit" ∷ "orchid" ∷ "origin" ∷ "otter" ∷ "paddle" ∷ "panda" ∷ "panel" ∷ "paper" ∷ "parade"
    ∷ "parcel" ∷ "pearl" ∷ "pepper" ∷ "petal" ∷ "phoenix" ∷ "piano" ∷ "pilot" ∷ "pixel" ∷ "planet"
    ∷ "plaza" ∷ "pocket" ∷ "poem" ∷ "polar" ∷ "ponder" ∷ "prairie" ∷ "prism" ∷ "pulse" ∷ "quartz"
    ∷ "quill" ∷ "rabbit" ∷ "radar" ∷ "raven" ∷ "reef" ∷ "relay" ∷ "ribbon" ∷ "ripple" ∷ "river"
    ∷ "rocket" ∷ "royal" ∷ "saddle" ∷ "sailor" ∷ "salmon" ∷ "satin" ∷ "scenic" ∷ "shadow" ∷ "shiny"
    ∷ "signal" ∷ "silver" ∷ "simple" ∷ "sketch" ∷ "solar" ∷ "sonic" ∷ "spark" ∷ "spruce" ∷ "stable"
    ∷ "star" ∷ "stone" ∷ "storm" ∷ "sunset" ∷ "symbol" ∷ "tactic" ∷ "talon" ∷ "tango" ∷ "temple"
    ∷ "thunder" ∷ "timber" ∷ "titan" ∷ "token" ∷ "topaz" ∷ "trail" ∷ "tulip" ∷ "turbo" ∷ "ultra"
    ∷ "umbra" ∷ "unison" ∷ "velvet" ∷ "vertex" ∷ "vessel" ∷ "vivid" ∷ "voyage" ∷ "walnut" ∷ "wave"
    ∷ "whale" ∷ "whisper" ∷ "window" ∷ "winter" ∷ "wizard" ∷ "woven" ∷ "xenon" ∷ "yarrow" ∷ "yellow"
    ∷ "yonder" ∷ "almond" ∷ "anthem" ∷ "badge" ∷ "banjo" ∷ "breeze" ∷ "button" ∷ "canary" ∷ "circle"
    ∷ "copper" ∷ "cosmos" ∷ "dynamo" ∷ "elmwood" ∷ "feather" ∷ "gadget" ∷ "hammer" ∷ "impact"
    ∷ "jasper" ∷ "lantern" ∷ "marble" ∷ "nimbus" ∷ "zephyr" ∷ []

unfoldable pub words : List Text
words = map codes spelled
