-- ===== src/Classify/Registry.antt =====
-- The registry of series tickers (kalshi_router/series_registry.py), a list for each sport.
use kalshi_bet_router.Base.{
  String, Bool, true, false, Option, none, some, List, [], ◌∷◌, if◌then◌else◌, contains,
}
use kalshi_bet_router.Destinations.{Sport, mlb, nfl, cfb, nhl, nba, soccer, tennis}
use kalshi_bet_router.Classify.Words.{Letters, strip, is_empty_string}

pub record SeriesEntry : Type 0 where
  pub sport : Sport
  pub verified : Bool

abbrev mlb_series : List String
mlb_series = "KXMLBGAME" ∷ "KXMLBSERIES" ∷ "KXWORLDSERIES" ∷ "KXMLBWS" ∷ []

abbrev nfl_series : List String
nfl_series = "KXNFLGAME" ∷ "KXNFLSPREAD" ∷ "KXNFLTOTAL" ∷ "KXSUPERBOWL" ∷ []

abbrev cfb_series : List String
cfb_series = "KXNCAAFGAME" ∷ "KXNCAAFSPREAD" ∷ "KXNCAAFCHAMP" ∷ []

abbrev nhl_series : List String
nhl_series =
    "KXNHLGAME" ∷ "KXNHLSPREAD" ∷ "KXNHLTOTAL" ∷ "KXNHLTEAMTOTAL" ∷ "KXNHLOT" ∷ "KXNHLOVERTIME"
    ∷ "KXNHL1P" ∷ "KXNHL2P" ∷ "KXNHL3P" ∷ "KXNHL1PTOTAL" ∷ "KXNHL2PTOTAL" ∷ "KXNHL3PTOTAL"
    ∷ "KXNHL1PSPREAD" ∷ "KXNHL2PSPREAD" ∷ "KXNHL3PSPREAD" ∷ "KXNHLFIRSTGOAL" ∷ "KXNHLGOAL"
    ∷ "KXNHLPTS" ∷ "KXNHLAST" ∷ "KXNHLSAVES" ∷ []

abbrev nba_series : List String
nba_series =
    "KXNBA1H" ∷ "KXNBA1HSPREAD" ∷ "KXNBA1HTEAMTOTAL" ∷ "KXNBA1HTOTAL" ∷ "KXNBA1HWINNER" ∷ "KXNBA1Q"
    ∷ "KXNBA1QSPREAD" ∷ "KXNBA1QTEAMTOTAL" ∷ "KXNBA1QTOTAL" ∷ "KXNBA1QWINNER" ∷ "KXNBA2D"
    ∷ "KXNBA2H" ∷ "KXNBA2HSPREAD" ∷ "KXNBA2HTEAMTOTAL" ∷ "KXNBA2HTOTAL" ∷ "KXNBA2HWINNER"
    ∷ "KXNBA2Q" ∷ "KXNBA2QSPREAD" ∷ "KXNBA2QTEAMTOTAL" ∷ "KXNBA2QTOTAL" ∷ "KXNBA2QWINNER"
    ∷ "KXNBA3D" ∷ "KXNBA3PT" ∷ "KXNBA3Q" ∷ "KXNBA3QSPREAD" ∷ "KXNBA3QTEAMTOTAL" ∷ "KXNBA3QTOTAL"
    ∷ "KXNBA3QWINNER" ∷ "KXNBA4Q" ∷ "KXNBA4QSPREAD" ∷ "KXNBA4QTEAMTOTAL" ∷ "KXNBA4QTOTAL"
    ∷ "KXNBA4QWINNER" ∷ "KXNBAAST" ∷ "KXNBABENCHPTS" ∷ "KXNBABLK" ∷ "KXNBAFTM" ∷ "KXNBAGAME"
    ∷ "KXNBAH2H3PT" ∷ "KXNBAH2HBENCHPTS" ∷ "KXNBAH2HPRA" ∷ "KXNBAH2HPTS" ∷ "KXNBAH2HTEAM3PT"
    ∷ "KXNBAOT" ∷ "KXNBAOVERTIME" ∷ "KXNBAPA" ∷ "KXNBAPR" ∷ "KXNBAPRA" ∷ "KXNBAPREPACK2ML"
    ∷ "KXNBAPREPACK3ML" ∷ "KXNBAPTS" ∷ "KXNBARA" ∷ "KXNBAREB" ∷ "KXNBASPREAD" ∷ "KXNBASTL"
    ∷ "KXNBASTOCK" ∷ "KXNBASTOCKS" ∷ "KXNBATEAMTOTAL" ∷ "KXNBATOTAL" ∷ "KXNBAWINMARGIN" ∷ []

abbrev soccer_series : List String
soccer_series =
    "KXAPFDDH" ∷ "KXAPFDDHBTTS" ∷ "KXAPFDDHGAME" ∷ "KXAPFDDHSPREAD" ∷ "KXAPFDDHTOTAL"
    ∷ "KXARGNACBBTTS" ∷ "KXARGNACBGAME" ∷ "KXARGNACBSPREAD" ∷ "KXARGNACBTOTAL" ∷ "KXARGPREMDIV"
    ∷ "KXBALLONDOR" ∷ "KXBALLONDORAWARD" ∷ "KXBALLONDORRANK" ∷ "KXBELGIANPL" ∷ "KXBRASILEIRO"
    ∷ "KXBRASILEIROB1H" ∷ "KXBRASILEIROB1HBTTS" ∷ "KXBRASILEIROB1HSPREAD" ∷ "KXBRASILEIROB1HTOTAL"
    ∷ "KXBRASILEIROBBTTS" ∷ "KXBRASILEIROBGAME" ∷ "KXBRASILEIROBSPREAD" ∷ "KXBRASILEIROBTOTAL"
    ∷ "KXBRASILEIROBTTS" ∷ "KXBRASILEIROCBTTS" ∷ "KXBRASILEIROCGAME" ∷ "KXBRASILEIROCSPREAD"
    ∷ "KXBRASILEIROCTOTAL" ∷ "KXBRASILEIROGAME" ∷ "KXBRASILEIROSPREAD" ∷ "KXBRASILEIROTOPX"
    ∷ "KXBRASILEIROTOTAL" ∷ "KXBUNDESLIGA" ∷ "KXBUNDESLIGAGAME" ∷ "KXBUNDESLIGALAST"
    ∷ "KXBUNDESLIGALEADER" ∷ "KXBUNDESLIGAPOINTMARGIN" ∷ "KXBUNDESLIGARELEGATION"
    ∷ "KXBUNDESLIGATEAMPOINTS" ∷ "KXBUNDESLIGATOP" ∷ "KXCANPLGAME" ∷ "KXCHLLDP" ∷ "KXCHNL1GAME"
    ∷ "KXCHNSL" ∷ "KXCLUBCHANGEMBAPPE" ∷ "KXCLUBWCHOST" ∷ "KXCONCACAFGC" ∷ "KXCONCACAFNL"
    ∷ "KXCONCACAFNL1H" ∷ "KXCONCACAFNL1HBTTS" ∷ "KXCONCACAFNL1HSPREAD" ∷ "KXCONCACAFNL1HTOTAL"
    ∷ "KXCONCACAFNLBTTS" ∷ "KXCONCACAFNLGAME" ∷ "KXCONCACAFNLSPREAD" ∷ "KXCONCACAFNLTOTAL"
    ∷ "KXCONMEBOLLIB" ∷ "KXCONMEBOLSUD" ∷ "KXCOPAAMERICA" ∷ "KXCOPAAMERICAHOST" ∷ "KXCOPADELREY"
    ∷ "KXCOPADELREYADVANCE" ∷ "KXCOPADELREYGAME" ∷ "KXCOPADOBRASIL" ∷ "KXDENSUPERLIGA"
    ∷ "KXDFBPOKAL" ∷ "KXDIMAYORBTTS" ∷ "KXDIMAYORGAME" ∷ "KXDIMAYORSPREAD" ∷ "KXDIMAYORTOTAL"
    ∷ "KXECULP" ∷ "KXEFLCHAMPIONSHIP" ∷ "KXEFLCUP" ∷ "KXEFLL1BTTS" ∷ "KXEFLL1GAME" ∷ "KXEFLL1SPREAD"
    ∷ "KXEFLL1TOTAL" ∷ "KXEFLPROMO" ∷ "KXEKSTRAKLASA" ∷ "KXENGNLGAME" ∷ "KXEPLGAME" ∷ "KXEPLH2H"
    ∷ "KXEPLH2HFINISH" ∷ "KXEPLLAST" ∷ "KXEPLLEADER" ∷ "KXEPLPOINTMARGIN" ∷ "KXEPLRELEGATION"
    ∷ "KXEPLSEASONSTAT" ∷ "KXEPLTEAMPOINTS" ∷ "KXEPLTOP" ∷ "KXEREDIVISIE" ∷ "KXFACUP"
    ∷ "KXFIFALEAVE" ∷ "KXFIFAWGAME" ∷ "KXHKANEKNIGHT" ∷ "KXINTLFRIENDLY1H" ∷ "KXINTLFRIENDLY1HBTTS"
    ∷ "KXINTLFRIENDLY1HSPREAD" ∷ "KXINTLFRIENDLY1HTOTAL" ∷ "KXINTLFRIENDLYBTTS"
    ∷ "KXINTLFRIENDLYGAME" ∷ "KXINTLFRIENDLYSPREAD" ∷ "KXINTLFRIENDLYTOTAL" ∷ "KXISRNLBTTS"
    ∷ "KXISRNLGAME" ∷ "KXISRNLSPREAD" ∷ "KXISRNLTOTAL" ∷ "KXJOINCLUB" ∷ "KXJOINLEAGUE"
    ∷ "KXJOINRONALDO" ∷ "KXKLEAGUE" ∷ "KXKNVBCUP" ∷ "KXLALIGA" ∷ "KXLALIGA2BTTS" ∷ "KXLALIGA2GAME"
    ∷ "KXLALIGA2SPREAD" ∷ "KXLALIGA2TOTAL" ∷ "KXLALIGAGAME" ∷ "KXLALIGALAST" ∷ "KXLALIGALEADER"
    ∷ "KXLALIGAPOINTMARGIN" ∷ "KXLALIGARELEGATION" ∷ "KXLALIGATEAMPOINTS" ∷ "KXLALIGATOP"
    ∷ "KXLAMINEYAMAL" ∷ "KXLIGAEXPGAME" ∷ "KXLIGAMX" ∷ "KXLIGAMX1H" ∷ "KXLIGAMX1HBTTS"
    ∷ "KXLIGAMX1HSCORE" ∷ "KXLIGAMX1HSPREAD" ∷ "KXLIGAMX1HTOTAL" ∷ "KXLIGAMX2H" ∷ "KXLIGAMX2HBTTS"
    ∷ "KXLIGAMX2HSPREAD" ∷ "KXLIGAMX2HTOTAL" ∷ "KXLIGAMXBTTS" ∷ "KXLIGAMXFTTS" ∷ "KXLIGAMXGAME"
    ∷ "KXLIGAMXLEADER" ∷ "KXLIGAMXSCORE" ∷ "KXLIGAMXSPREAD" ∷ "KXLIGAMXTEAMTOTAL" ∷ "KXLIGAMXTOP"
    ∷ "KXLIGAMXTOTAL" ∷ "KXLIGAPORTUGAL" ∷ "KXLIGUE1" ∷ "KXLIGUE1GAME" ∷ "KXLIGUE1LAST"
    ∷ "KXLIGUE1LEADER" ∷ "KXLIGUE1POINTMARGIN" ∷ "KXLIGUE1RELEGATION" ∷ "KXLIGUE1TEAMPOINTS"
    ∷ "KXLIGUE1TOP" ∷ "KXMANAGEROUTDATE" ∷ "KXMANAGERSOUT" ∷ "KXMLS1H" ∷ "KXMLS1HBTTS"
    ∷ "KXMLS1HSCORE" ∷ "KXMLS1HSPREAD" ∷ "KXMLS1HTOTAL" ∷ "KXMLS2H" ∷ "KXMLS2HBTTS"
    ∷ "KXMLS2HSPREAD" ∷ "KXMLS2HTOTAL" ∷ "KXMLSBTTS" ∷ "KXMLSCUP" ∷ "KXMLSEAST" ∷ "KXMLSFTTS"
    ∷ "KXMLSGAME" ∷ "KXMLSLEADER" ∷ "KXMLSSCORE" ∷ "KXMLSSPREAD" ∷ "KXMLSTEAMTOTAL" ∷ "KXMLSTOTAL"
    ∷ "KXMLSWEST" ∷ "KXNWSL" ∷ "KXNWSLBTTS" ∷ "KXNWSLGAME" ∷ "KXNWSLSPREAD" ∷ "KXNWSLTOTAL"
    ∷ "KXPERLIGA1" ∷ "KXPERLIGA1GAME" ∷ "KXPOCHETTINOOUT" ∷ "KXPREMIERLEAGUE" ∷ "KXSERIEA"
    ∷ "KXSERIEAGAME" ∷ "KXSERIEALAST" ∷ "KXSERIEALEADER" ∷ "KXSERIEAPOINTMARGIN"
    ∷ "KXSERIEARELEGATION" ∷ "KXSERIEATEAMPOINTS" ∷ "KXSERIEATOP" ∷ "KXSOCCERRETIRE"
    ∷ "KXSOCCERTREBLE" ∷ "KXSOCCERTROPHIES" ∷ "KXSUPERBALLONDOR" ∷ "KXSUPERLIG" ∷ "KXSVK2LBTTS"
    ∷ "KXSVK2LGAME" ∷ "KXSVK2LSPREAD" ∷ "KXSVK2LTOTAL" ∷ "KXSVKCUPADVANCE" ∷ "KXSVKCUPGAME"
    ∷ "KXTACAPORT" ∷ "KXTHAIL1" ∷ "KXUCL" ∷ "KXUCLBOTTOM" ∷ "KXUCLLEADER" ∷ "KXUCLLEAGUE"
    ∷ "KXUCLROUND" ∷ "KXUCLTOP" ∷ "KXUCLTOP8" ∷ "KXUCLWGAME" ∷ "KXUECL" ∷ "KXUEFAEURO"
    ∷ "KXUEFAEUROQUAL" ∷ "KXUEFANL" ∷ "KXUEFANL1H" ∷ "KXUEFANL1HBTTS" ∷ "KXUEFANL1HSPREAD"
    ∷ "KXUEFANL1HTOTAL" ∷ "KXUEFANLBTTS" ∷ "KXUEFANLFTTS" ∷ "KXUEFANLGAME" ∷ "KXUEFANLGROUPQUAL"
    ∷ "KXUEFANLGROUPWIN" ∷ "KXUEFANLROUND" ∷ "KXUEFANLSCORE" ∷ "KXUEFANLSPREAD"
    ∷ "KXUEFANLTEAMTOTAL" ∷ "KXUEFANLTOTAL" ∷ "KXUEL" ∷ "KXURYPD" ∷ "KXURYPDBTTS" ∷ "KXURYPDGAME"
    ∷ "KXURYPDSPREAD" ∷ "KXURYPDTOTAL" ∷ "KXUSL" ∷ "KXUSLBTTS" ∷ "KXUSLCUPADVANCE" ∷ "KXUSLCUPGAME"
    ∷ "KXUSLGAME" ∷ "KXUSLSPREAD" ∷ "KXUSLTOTAL" ∷ "KXVENFUTVE" ∷ "KXWC" ∷ "KXWCCAREERGOALS"
    ∷ "KXWCHOST" ∷ "KXWCQUAL" ∷ "KXWCTEAMS" ∷ "KXWCW" ∷ "KXWINSTREAKMANU" ∷ []

abbrev tennis_series : List String
tennis_series = "KXATPMATCH" ∷ "KXWTAMATCH" ∷ "KXUSOPEN" ∷ "KXWIMBLEDON" ∷ []

abbrev registered : String → Option SeriesEntry
registered ticker =
    if contains ticker mlb_series
    then some (record { sport = mlb; verified = false })
    else if contains ticker nfl_series
    then some (record { sport = nfl; verified = false })
    else if contains ticker cfb_series
    then some (record { sport = cfb; verified = false })
    else if contains ticker nhl_series
    then some (record { sport = nhl; verified = true })
    else if contains ticker nba_series
    then some (record { sport = nba; verified = true })
    else if contains ticker soccer_series
    then some (record { sport = soccer; verified = true })
    else if contains ticker tennis_series
    then some (record { sport = tennis; verified = false })
    else none

-- `lookup_series_ticker(series_ticker)`
unfoldable pub lookup_series_ticker : Letters → Option String → Option SeriesEntry
lookup_series_ticker letters none = none
lookup_series_ticker letters (some ticker) =
    if is_empty_string ticker then none else registered (letters.upper (strip ticker))
