-- ===== src/Generator/Words.antt =====
-- The embedded word list of web/generator.js.
pub mod Distinct
use Prim.Native.String.{String}
use maspassword.Base.{List, [], ◌∷◌, Text, codes, map}

-- WORDLIST, as it stands in the source.
unfoldable pub word_list : List String
word_list =
    "able" ∷ "acid" ∷ "aged" ∷ "also" ∷ "area" ∷ "army" ∷ "away" ∷ "baby" ∷ "back" ∷ "ball" ∷ "band"
    ∷ "bank" ∷ "base" ∷ "bath" ∷ "bear" ∷ "beat" ∷ "been" ∷ "beer" ∷ "bell" ∷ "belt" ∷ "bend"
    ∷ "best" ∷ "bird" ∷ "bite" ∷ "blue" ∷ "boat" ∷ "body" ∷ "bone" ∷ "book" ∷ "boot" ∷ "born"
    ∷ "boss" ∷ "both" ∷ "bowl" ∷ "bulk" ∷ "burn" ∷ "bush" ∷ "busy" ∷ "cage" ∷ "cake" ∷ "call"
    ∷ "calm" ∷ "came" ∷ "camp" ∷ "card" ∷ "care" ∷ "case" ∷ "cash" ∷ "cast" ∷ "cell" ∷ "chat"
    ∷ "chip" ∷ "city" ∷ "clay" ∷ "clip" ∷ "club" ∷ "coal" ∷ "coat" ∷ "code" ∷ "cold" ∷ "come"
    ∷ "cook" ∷ "cool" ∷ "cope" ∷ "copy" ∷ "core" ∷ "corn" ∷ "cost" ∷ "crew" ∷ "crop" ∷ "dark"
    ∷ "data" ∷ "date" ∷ "dawn" ∷ "days" ∷ "dead" ∷ "deal" ∷ "dear" ∷ "debt" ∷ "deep" ∷ "deer"
    ∷ "desk" ∷ "dial" ∷ "dice" ∷ "diet" ∷ "dirt" ∷ "dish" ∷ "does" ∷ "done" ∷ "door" ∷ "dose"
    ∷ "down" ∷ "draw" ∷ "drew" ∷ "drop" ∷ "drug" ∷ "drum" ∷ "dual" ∷ "duck" ∷ "dull" ∷ "dust"
    ∷ "duty" ∷ "each" ∷ "earn" ∷ "ease" ∷ "east" ∷ "easy" ∷ "edge" ∷ "else" ∷ "even" ∷ "ever"
    ∷ "evil" ∷ "exit" ∷ "face" ∷ "fact" ∷ "fade" ∷ "fail" ∷ "fair" ∷ "fall" ∷ "farm" ∷ "fast"
    ∷ "fate" ∷ "fear" ∷ "feed" ∷ "feel" ∷ "feet" ∷ "fell" ∷ "felt" ∷ "file" ∷ "fill" ∷ "film"
    ∷ "find" ∷ "fine" ∷ "fire" ∷ "firm" ∷ "fish" ∷ "fist" ∷ "five" ∷ "flag" ∷ "flat" ∷ "flee"
    ∷ "flow" ∷ "folk" ∷ "food" ∷ "foot" ∷ "ford" ∷ "form" ∷ "fort" ∷ "four" ∷ "free" ∷ "frog"
    ∷ "fuel" ∷ "full" ∷ "fund" ∷ "gain" ∷ "game" ∷ "gate" ∷ "gave" ∷ "gear" ∷ "gift" ∷ "girl"
    ∷ "give" ∷ "glad" ∷ "goal" ∷ "goat" ∷ "gold" ∷ "golf" ∷ "gone" ∷ "good" ∷ "gray" ∷ "grew"
    ∷ "grid" ∷ "grip" ∷ "grow" ∷ "gulf" ∷ "hair" ∷ "half" ∷ "hall" ∷ "hand" ∷ "hang" ∷ "hard"
    ∷ "harm" ∷ "hate" ∷ "have" ∷ "hawk" ∷ "head" ∷ "hear" ∷ "heat" ∷ "held" ∷ "hell" ∷ "help"
    ∷ "herb" ∷ "herd" ∷ "here" ∷ "hero" ∷ "hide" ∷ "high" ∷ "hill" ∷ "hint" ∷ "hire" ∷ "hold"
    ∷ "hole" ∷ "holy" ∷ "home" ∷ "hook" ∷ "hope" ∷ "horn" ∷ "host" ∷ "hour" ∷ "huge" ∷ "hull"
    ∷ "hunt" ∷ "hurt" ∷ "icon" ∷ "idea" ∷ "inch" ∷ "iron" ∷ "isle" ∷ "item" ∷ "jail" ∷ "jazz"
    ∷ "join" ∷ "joke" ∷ "jump" ∷ "jury" ∷ "keen" ∷ "keep" ∷ "kick" ∷ "kind" ∷ "king" ∷ "kiss"
    ∷ "kite" ∷ "knee" ∷ "knew" ∷ "knot" ∷ "know" ∷ "lack" ∷ "lady" ∷ "laid" ∷ "lake" ∷ "lamb"
    ∷ "lamp" ∷ "land" ∷ "lane" ∷ "last" ∷ "late" ∷ "lawn" ∷ "lazy" ∷ "lead" ∷ "leaf" ∷ "lean"
    ∷ "left" ∷ "lend" ∷ "lens" ∷ "less" ∷ "lift" ∷ "like" ∷ "lime" ∷ "line" ∷ "link" ∷ "lion"
    ∷ "list" ∷ "live" ∷ "load" ∷ "loan" ∷ "lock" ∷ "loft" ∷ "logo" ∷ "lone" ∷ "long" ∷ "look"
    ∷ "loop" ∷ "lord" ∷ "lose" ∷ "loss" ∷ "lost" ∷ "loud" ∷ "love" ∷ "luck" ∷ "lump" ∷ "lung"
    ∷ "made" ∷ "mail" ∷ "main" ∷ "make" ∷ "male" ∷ "mall" ∷ "many" ∷ "mark" ∷ "mask" ∷ "mass"
    ∷ "mate" ∷ "math" ∷ "meal" ∷ "mean" ∷ "meat" ∷ "meet" ∷ "melt" ∷ "menu" ∷ "mere" ∷ "mesh"
    ∷ "mild" ∷ "mile" ∷ "milk" ∷ "mill" ∷ "mind" ∷ "mine" ∷ "mint" ∷ "miss" ∷ "mist" ∷ "moat"
    ∷ "mode" ∷ "mold" ∷ "mole" ∷ "mood" ∷ "moon" ∷ "more" ∷ "moss" ∷ "most" ∷ "moth" ∷ "move"
    ∷ "much" ∷ "mule" ∷ "must" ∷ "myth" ∷ "nail" ∷ "name" ∷ "navy" ∷ "near" ∷ "neat" ∷ "neck"
    ∷ "need" ∷ "nest" ∷ "news" ∷ "next" ∷ "nice" ∷ "node" ∷ "none" ∷ "noon" ∷ "norm" ∷ "nose"
    ∷ "note" ∷ "noun" ∷ "oath" ∷ "obey" ∷ "once" ∷ "only" ∷ "onto" ∷ "open" ∷ "oral" ∷ "oval"
    ∷ "oven" ∷ "pace" ∷ "pack" ∷ "page" ∷ "paid" ∷ "pain" ∷ "pair" ∷ "pale" ∷ "palm" ∷ "park"
    ∷ "part" ∷ "pass" ∷ "past" ∷ "path" ∷ "peak" ∷ "pear" ∷ "peer" ∷ "pile" ∷ "pine" ∷ "pink"
    ∷ "pipe" ∷ "plan" ∷ "play" ∷ "plot" ∷ "plug" ∷ "plus" ∷ "poem" ∷ "poet" ∷ "pole" ∷ "poll"
    ∷ "pond" ∷ "pony" ∷ "pool" ∷ "poor" ∷ "port" ∷ "pose" ∷ "post" ∷ "pour" ∷ "pray" ∷ "prep"
    ∷ "prey" ∷ "prop" ∷ "pull" ∷ "pump" ∷ "pure" ∷ "push" ∷ "quit" ∷ "quiz" ∷ "race" ∷ "rack"
    ∷ "rage" ∷ "raid" ∷ "rail" ∷ "rain" ∷ "rank" ∷ "rare" ∷ "rate" ∷ "read" ∷ "real" ∷ "rear"
    ∷ "reed" ∷ "reef" ∷ "rely" ∷ "rent" ∷ "rest" ∷ "rice" ∷ "rich" ∷ "ride" ∷ "ring" ∷ "riot"
    ∷ "rise" ∷ "risk" ∷ "road" ∷ "roar" ∷ "robe" ∷ "rock" ∷ "role" ∷ "roll" ∷ "roof" ∷ "room"
    ∷ "root" ∷ "rope" ∷ "rose" ∷ "ruby" ∷ "rude" ∷ "rule" ∷ "rush" ∷ "sack" ∷ "safe" ∷ "said"
    ∷ "sail" ∷ "salt" ∷ "same" ∷ "sand" ∷ "save" ∷ "seal" ∷ "seat" ∷ "seed" ∷ "seek" ∷ "seem"
    ∷ "seen" ∷ "self" ∷ "sell" ∷ "send" ∷ "sent" ∷ "ship" ∷ "shoe" ∷ "shop" ∷ "shot" ∷ "show"
    ∷ "shut" ∷ "sick" ∷ "side" ∷ "sign" ∷ "silk" ∷ "sing" ∷ "sink" ∷ "site" ∷ "size" ∷ "skin"
    ∷ "skip" ∷ "slab" ∷ "slam" ∷ "slid" ∷ "slim" ∷ "slip" ∷ "slot" ∷ "slow" ∷ "snap" ∷ "snow"
    ∷ "soap" ∷ "soft" ∷ "soil" ∷ "sold" ∷ "sole" ∷ "some" ∷ "song" ∷ "soon" ∷ "sort" ∷ "soul"
    ∷ "soup" ∷ "sour" ∷ "span" ∷ "spin" ∷ "spot" ∷ "star" ∷ "stay" ∷ "stem" ∷ "step" ∷ "stir"
    ∷ "stop" ∷ "such" ∷ "suit" ∷ "sure" ∷ "swap" ∷ "swim" ∷ "tail" ∷ "take" ∷ "tale" ∷ "talk"
    ∷ "tall" ∷ "tank" ∷ "tape" ∷ "task" ∷ "taxi" ∷ "team" ∷ "tear" ∷ "tell" ∷ "tend" ∷ "tent"
    ∷ "term" ∷ "test" ∷ "text" ∷ "than" ∷ "that" ∷ "thaw" ∷ "them" ∷ "then" ∷ "they" ∷ "thin"
    ∷ "this" ∷ "thus" ∷ "tide" ∷ "tidy" ∷ "tile" ∷ "till" ∷ "time" ∷ "tiny" ∷ "toll" ∷ "tone"
    ∷ "took" ∷ "tool" ∷ "torn" ∷ "tour" ∷ "town" ∷ "trap" ∷ "tray" ∷ "tree" ∷ "trim" ∷ "trip"
    ∷ "true" ∷ "tube" ∷ "tuna" ∷ "tune" ∷ "turn" ∷ "twin" ∷ "type" ∷ "ugly" ∷ "undo" ∷ "unit"
    ∷ "upon" ∷ "urge" ∷ "used" ∷ "user" ∷ "vary" ∷ "vast" ∷ "veil" ∷ "verb" ∷ "very" ∷ "vest"
    ∷ "view" ∷ "visa" ∷ "void" ∷ "vote" ∷ "wage" ∷ "wait" ∷ "wake" ∷ "walk" ∷ "wall" ∷ "wand"
    ∷ "want" ∷ "ward" ∷ "warm" ∷ "wash" ∷ "wave" ∷ "weak" ∷ "wear" ∷ "week" ∷ "well" ∷ "went"
    ∷ "were" ∷ "west" ∷ "what" ∷ "when" ∷ "whip" ∷ "wide" ∷ "wife" ∷ "wild" ∷ "will" ∷ "wind"
    ∷ "wine" ∷ "wing" ∷ "wink" ∷ "wire" ∷ "wise" ∷ "wish" ∷ "wolf" ∷ "wood" ∷ "wool" ∷ "word"
    ∷ "wore" ∷ "work" ∷ "worm" ∷ "wrap" ∷ "yard" ∷ "yarn" ∷ "yawn" ∷ "year" ∷ "yell" ∷ "yoga"
    ∷ "zero" ∷ "zone" ∷ "zoom" ∷ []
