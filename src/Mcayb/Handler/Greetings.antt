-- ===== src/Mcayb/Handler/Greetings.antt =====
-- mcayb/src/bot.rs: the answers to a message that mentions the bot without a file or a link.
use mind_craft.Base.{Text, codes, List, [], ◌∷◌, ◌++◌}

-- `MESSAGES`.
abbrev pub messages : List Text
messages =
    codes "HELLO"
    ∷ codes "Hallo :3"
    ∷ codes "Hi"
    ∷ codes "Ur annoying"
    ∷ codes "HIIIIIIIIII"
    ∷ codes "https://tenor.com/view/blm-gif-25815938"
    ∷ (codes "Minecraft is a 2011 sandbox game developed by Mojang Studios and originally "
        ++ codes "released in 2009. The game was created by Markus \"Notch\" Persson in the Java "
        ++ codes "programming language. Following several early private testing versions, it was "
        ++ codes "first made public in May 2009 before being fully released on November 18, 2011, "
        ++ codes "with Notch stepping down and Jens \"Jeb\" Bergensten taking over development. "
        ++ codes "Minecraft has become the best-selling video game in history, with over 300 "
        ++ codes "million copies sold and nearly 140 million monthly active players as of 2023. "
        ++ codes "Over the years following its release, it has been ported to several platforms, "
        ++ codes "including smartphones and various consoles.\n\nIn Minecraft, players explore a "
        ++ codes "blocky, pixelated, procedurally generated, three-dimensional world with "
        ++ codes "virtually infinite terrain. Players can discover and extract raw materials, "
        ++ codes "craft tools and items, and build structures, earthworks, and machines. "
        ++ codes "Depending on their chosen game mode, players can fight hostile mobs, as well as "
        ++ codes "cooperate with or compete against other players in the same world. Game modes "
        ++ codes "include a survival mode (in which players must acquire resources to build in "
        ++ codes "the world and maintain health), creative mode (in which players have unlimited "
        ++ codes "resources and the ability to fly), spectator mode (in which players can fly, go "
        ++ codes "through blocks, and enter the bodies of other players and entities), adventure "
        ++ codes "mode (in which players have to survive without being able to build and place "
        ++ codes "blocks), and hardcore mode (in which the difficulty is set to Hard and dying "
        ++ codes "causes the player to lose their ability to play on that world). The game's "
        ++ codes "large community also offers a wide variety of user-generated content, such as "
        ++ codes "modifications, servers, skins, texture packs, and custom maps, which add new "
        ++ codes "game mechanics and possibilities. ")
    ∷ codes "hewwo :3c"
    ∷ []
