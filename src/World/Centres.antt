-- ===== src/World/Centres.antt =====
-- internal/world/place.go: the table of named centres, in two parts.
use populace.Prelude.{List, [], ◌∷◌, ◌++◌}
use populace.Prelude.Decimals.{Decimal, lit, less}
use Prim.Native.String.{String}
use populace.World.Regions.{
  Region, sub_saharan_africa, mena, south_asia, east_asia, southeast_asia, europe, eurasia,
  north_america, latin_america, oceania,
}

pub record Centre : Type 0 where
  pub name : String
  pub region : Region
  pub lat : Decimal
  pub lon : Decimal
  pub weight : Decimal
  pub spread : Decimal

abbrev centre : String → Region → Decimal → Decimal → Decimal → Decimal → Centre
centre name region lat lon weight spread = record {
  name = name;
  region = region;
  lat = lat;
  lon = lon;
  weight = weight;
  spread = spread;
}

abbrev pub first_centres : List Centre
first_centres =
    centre "Tokyo" east_asia (lit 357 10) (lit 1397 10) (lit 9 1) (lit 22 10)
    ∷ centre "Delhi" south_asia (lit 286 10) (lit 772 10) (lit 10 1) (lit 45 10)
    ∷ centre "Shanghai" east_asia (lit 312 10) (lit 1215 10) (lit 9 1) (lit 26 10)
    ∷ centre "Dhaka" south_asia (lit 238 10) (lit 904 10) (lit 8 1) (lit 3 1)
    ∷ centre "Sao Paulo" latin_america (less 235 10) (less 466 10) (lit 7 1) (lit 28 10)
    ∷ centre "Cairo" mena (lit 30 1) (lit 312 10) (lit 7 1) (lit 24 10)
    ∷ centre "Mexico City" latin_america (lit 194 10) (less 991 10) (lit 7 1) (lit 26 10)
    ∷ centre "Beijing" east_asia (lit 399 10) (lit 1164 10) (lit 8 1) (lit 3 1)
    ∷ centre "Mumbai" south_asia (lit 191 10) (lit 729 10) (lit 9 1) (lit 34 10)
    ∷ centre "Osaka" east_asia (lit 347 10) (lit 1355 10) (lit 5 1) (lit 18 10)
    ∷ centre "Karachi" south_asia (lit 249 10) (lit 67 1) (lit 7 1) (lit 26 10)
    ∷ centre "Chongqing" east_asia (lit 296 10) (lit 1065 10) (lit 6 1) (lit 32 10)
    ∷ centre "Istanbul" mena (lit 41 1) (lit 289 10) (lit 6 1) (lit 24 10)
    ∷ centre "Buenos Aires" latin_america (less 346 10) (less 584 10) (lit 5 1) (lit 24 10)
    ∷ centre "Kolkata" south_asia (lit 226 10) (lit 884 10) (lit 7 1) (lit 32 10)
    ∷ centre "Lagos" sub_saharan_africa (lit 65 10) (lit 34 10) (lit 8 1) (lit 3 1)
    ∷ centre "Kinshasa" sub_saharan_africa (less 44 10) (lit 153 10) (lit 6 1) (lit 34 10)
    ∷ centre "Manila" southeast_asia (lit 146 10) (lit 121 1) (lit 7 1) (lit 24 10)
    ∷ centre "Tianjin" east_asia (lit 391 10) (lit 1172 10) (lit 5 1) (lit 22 10)
    ∷ centre "Rio de Janeiro" latin_america (less 229 10) (less 432 10) (lit 5 1) (lit 22 10)
    ∷ centre "Guangzhou" east_asia (lit 231 10) (lit 1133 10) (lit 7 1) (lit 26 10)
    ∷ centre "Lahore" south_asia (lit 315 10) (lit 743 10) (lit 6 1) (lit 28 10)
    ∷ centre "Moscow" eurasia (lit 558 10) (lit 376 10) (lit 5 1) (lit 36 10)
    ∷ centre "Shenzhen" east_asia (lit 225 10) (lit 1141 10) (lit 5 1) (lit 18 10)
    ∷ centre "Bengaluru" south_asia (lit 1297 100) (lit 776 10) (lit 6 1) (lit 26 10)
    ∷ centre "Paris" europe (lit 489 10) (lit 235 100) (lit 5 1) (lit 26 10)
    ∷ centre "Jakarta" southeast_asia (less 62 10) (lit 1068 10) (lit 8 1) (lit 3 1)
    ∷ centre "Chennai" south_asia (lit 131 10) (lit 803 10) (lit 5 1) (lit 26 10)
    ∷ centre "Lima" latin_america (less 12 1) (less 77 1) (lit 5 1) (lit 22 10)
    ∷ centre "Bangkok" southeast_asia (lit 1375 100) (lit 1005 10) (lit 5 1) (lit 3 1)
    ∷ centre "Seoul" east_asia (lit 376 10) (lit 127 1) (lit 6 1) (lit 2 1)
    ∷ centre "Hyderabad" south_asia (lit 174 10) (lit 785 10) (lit 5 1) (lit 28 10)
    ∷ centre "London" europe (lit 515 10) (less 13 100) (lit 5 1) (lit 28 10)
    ∷ centre "Tehran" mena (lit 357 10) (lit 514 10) (lit 5 1) (lit 26 10)
    ∷ centre "Chicago" north_america (lit 419 10) (less 876 10) (lit 4 1) (lit 26 10)
    ∷ centre "Chengdu" east_asia (lit 306 10) (lit 1041 10) (lit 6 1) (lit 3 1)
    ∷ centre "Nanjing" east_asia (lit 321 10) (lit 1188 10) (lit 4 1) (lit 24 10)
    ∷ centre "Wuhan" east_asia (lit 306 10) (lit 1143 10) (lit 5 1) (lit 26 10)
    ∷ centre "Ho Chi Minh City" southeast_asia (lit 108 10) (lit 1067 10) (lit 5 1) (lit 26 10)
    ∷ centre "Luanda" sub_saharan_africa (less 88 10) (lit 132 10) (lit 4 1) (lit 28 10)
    ∷ centre "Ahmedabad" south_asia (lit 23 1) (lit 726 10) (lit 5 1) (lit 26 10)
    ∷ centre "Kuala Lumpur" southeast_asia (lit 314 100) (lit 1017 10) (lit 4 1) (lit 24 10)
    ∷ centre "Xi'an" east_asia (lit 343 10) (lit 1089 10) (lit 5 1) (lit 28 10)
    ∷ centre "Hong Kong" east_asia (lit 223 10) (lit 1142 10) (lit 4 1) (lit 14 10)
    ∷ centre "Hangzhou" east_asia (lit 303 10) (lit 1202 10) (lit 4 1) (lit 2 1)
    ∷ centre "Shenyang" east_asia (lit 418 10) (lit 1234 10) (lit 4 1) (lit 26 10)
    ∷ centre "Riyadh" mena (lit 247 10) (lit 467 10) (lit 4 1) (lit 34 10)
    ∷ centre "Baghdad" mena (lit 333 10) (lit 444 10) (lit 4 1) (lit 28 10)
    ∷ centre "Santiago" latin_america (less 334 10) (less 707 10) (lit 4 1) (lit 22 10)
    ∷ centre "Surat" south_asia (lit 212 10) (lit 728 10) (lit 4 1) (lit 22 10)
    ∷ centre "Madrid" europe (lit 404 10) (less 37 10) (lit 4 1) (lit 3 1)
    ∷ centre "Suzhou" east_asia (lit 313 10) (lit 1206 10) (lit 4 1) (lit 2 1)
    ∷ centre "Pune" south_asia (lit 185 10) (lit 739 10) (lit 4 1) (lit 24 10)
    ∷ centre "Harbin" east_asia (lit 458 10) (lit 1265 10) (lit 4 1) (lit 3 1)
    ∷ centre "Houston" north_america (lit 298 10) (less 954 10) (lit 3 1) (lit 26 10)
    ∷ centre "Dallas" north_america (lit 328 10) (less 968 10) (lit 3 1) (lit 26 10)
    ∷ centre "Toronto" north_america (lit 437 10) (less 794 10) (lit 3 1) (lit 24 10)
    ∷ centre "Singapore" southeast_asia (lit 135 100) (lit 1038 10) (lit 3 1) (lit 1 1)
    ∷ centre "Philadelphia" north_america (lit 40 1) (less 752 10) (lit 3 1) (lit 2 1)
    ∷ centre "Atlanta" north_america (lit 337 10) (less 844 10) (lit 3 1) (lit 24 10)
    ∷ centre "Fukuoka" east_asia (lit 336 10) (lit 1304 10) (lit 3 1) (lit 2 1)
    ∷ centre "Khartoum" mena (lit 155 10) (lit 325 10) (lit 4 1) (lit 32 10)
    ∷ centre "Barcelona" europe (lit 414 10) (lit 22 10) (lit 3 1) (lit 2 1)
    ∷ centre "Johannesburg" sub_saharan_africa (less 262 10) (lit 28 1) (lit 4 1) (lit 28 10)
    ∷ centre "St Petersburg" eurasia (lit 599 10) (lit 303 10) (lit 3 1) (lit 3 1)
    ∷ centre "Qingdao" east_asia (lit 361 10) (lit 1204 10) (lit 4 1) (lit 22 10)
    ∷ centre "Dalian" east_asia (lit 389 10) (lit 1216 10) (lit 3 1) (lit 2 1)
    ∷ centre "Washington" north_america (lit 389 10) (less 77 1) (lit 3 1) (lit 22 10)
    ∷ centre "Yangon" southeast_asia (lit 169 10) (lit 962 10) (lit 4 1) (lit 32 10)
    ∷ centre "Alexandria" mena (lit 312 10) (lit 299 10) (lit 4 1) (lit 22 10)
    ∷ centre "Jinan" east_asia (lit 367 10) (lit 117 1) (lit 4 1) (lit 26 10)
    ∷ centre "Guadalajara" latin_america (lit 207 10) (less 1033 10) (lit 3 1) (lit 24 10)
    ∷ centre "New York" north_america (lit 407 10) (less 74 1) (lit 5 1) (lit 24 10)
    ∷ centre "Los Angeles" north_america (lit 3405 100) (less 1182 10) (lit 5 1) (lit 26 10)
    ∷ centre "Berlin" europe (lit 525 10) (lit 134 10) (lit 4 1) (lit 3 1)
    ∷ centre "Rome" europe (lit 419 10) (lit 125 10) (lit 3 1) (lit 26 10)
    ∷ centre "Sydney" oceania (less 339 10) (lit 1512 10) (lit 3 1) (lit 2 1)
    ∷ centre "Melbourne" oceania (less 378 10) (lit 145 1) (lit 3 1) (lit 2 1)
    ∷ centre "Nairobi" sub_saharan_africa (less 13 10) (lit 368 10) (lit 4 1) (lit 3 1)
    ∷ centre "Addis Ababa" sub_saharan_africa (lit 9 1) (lit 387 10) (lit 4 1) (lit 32 10)
    ∷ centre "Accra" sub_saharan_africa (lit 56 10) (less 2 10) (lit 3 1) (lit 24 10)
    ∷ centre "Casablanca" mena (lit 336 10) (less 76 10) (lit 3 1) (lit 24 10)
    ∷ centre "Algiers" mena (lit 368 10) (lit 306 100) (lit 3 1) (lit 26 10)
    ∷ centre "Dar es Salaam" sub_saharan_africa (less 68 10) (lit 393 10) (lit 3 1) (lit 26 10)
    ∷ centre "Abidjan" sub_saharan_africa (lit 53 10) (less 4 1) (lit 3 1) (lit 24 10)
    ∷ centre "Kabul" south_asia (lit 345 10) (lit 692 10) (lit 3 1) (lit 3 1)
    ∷ centre "Tashkent" eurasia (lit 413 10) (lit 692 10) (lit 3 1) (lit 3 1)
    ∷ centre "Kyiv" europe (lit 505 10) (lit 305 10) (lit 3 1) (lit 32 10)
    ∷ centre "Warsaw" europe (lit 522 10) (lit 21 1) (lit 3 1) (lit 3 1)
    ∷ centre "Bogota" latin_america (lit 47 10) (less 741 10) (lit 4 1) (lit 26 10)
    ∷ centre "Caracas" latin_america (lit 105 10) (less 669 10) (lit 3 1) (lit 22 10)
    ∷ centre "Vancouver" north_america (lit 493 10) (less 1231 10) (lit 2 1) (lit 2 1)
    ∷ centre "Auckland" oceania (less 369 10) (lit 1748 10) (lit 2 1) (lit 18 10)
    ∷ []

abbrev pub other_centres : List Centre
other_centres =
    centre "Amsterdam" europe (lit 524 10) (lit 49 10) (lit 3 1) (lit 2 1)
    ∷ centre "Stockholm" europe (lit 593 10) (lit 181 10) (lit 2 1) (lit 26 10)
    ∷ centre "Zurich" europe (lit 474 10) (lit 85 10) (lit 2 1) (lit 18 10)
    ∷ centre "Dubai" mena (lit 253 10) (lit 553 10) (lit 3 1) (lit 2 1)
    ∷ centre "Hanoi" southeast_asia (lit 21 1) (lit 1058 10) (lit 4 1) (lit 28 10)
    ∷ centre "Lucknow" south_asia (lit 269 10) (lit 809 10) (lit 5 1) (lit 34 10)
    ∷ centre "Patna" south_asia (lit 256 10) (lit 851 10) (lit 5 1) (lit 32 10)
    ∷ centre "Kathmandu" south_asia (lit 277 10) (lit 853 10) (lit 3 1) (lit 2 1)
    ∷ centre "Colombo" south_asia (lit 69 10) (lit 799 10) (lit 3 1) (lit 2 1)
    ∷ centre "Surabaya" southeast_asia (less 72 10) (lit 1127 10) (lit 4 1) (lit 24 10)
    ∷ centre "Dakar" sub_saharan_africa (lit 147 10) (less 175 10) (lit 3 1) (lit 24 10)
    ∷ centre "Kano" sub_saharan_africa (lit 12 1) (lit 85 10) (lit 4 1) (lit 3 1)
    ∷ centre "Abuja" sub_saharan_africa (lit 91 10) (lit 75 10) (lit 3 1) (lit 28 10)
    ∷ centre "Brasilia" latin_america (less 158 10) (less 479 10) (lit 3 1) (lit 3 1)
    ∷ centre "Belo Horizonte" latin_america (less 199 10) (less 44 1) (lit 3 1) (lit 26 10)
    ∷ centre "Porto Alegre" latin_america (less 30 1) (less 512 10) (lit 3 1) (lit 24 10)
    ∷ centre "Santo Domingo" latin_america (lit 19 1) (less 707 10) (lit 2 1) (lit 18 10)
    ∷ centre "Havana" latin_america (lit 231 10) (less 824 10) (lit 2 1) (lit 18 10)
    ∷ centre "Montreal" north_america (lit 455 10) (less 736 10) (lit 2 1) (lit 22 10)
    ∷ centre "San Francisco" north_america (lit 378 10) (less 1224 10) (lit 3 1) (lit 2 1)
    ∷ centre "Seattle" north_america (lit 476 10) (less 1223 10) (lit 2 1) (lit 22 10)
    ∷ centre "Denver" north_america (lit 397 10) (less 105 1) (lit 2 1) (lit 24 10)
    ∷ centre "Phoenix" north_america (lit 334 10) (less 1121 10) (lit 2 1) (lit 24 10)
    ∷ centre "Boston" north_america (lit 424 10) (less 711 10) (lit 2 1) (lit 2 1)
    ∷ centre "Charlotte" north_america (lit 352 10) (less 808 10) (lit 2 1) (lit 24 10)
    ∷ centre "Orlando" north_america (lit 286 10) (less 814 10) (lit 2 1) (lit 22 10)
    ∷ centre "San Antonio" north_america (lit 294 10) (less 985 10) (lit 2 1) (lit 24 10)
    ∷ centre "Las Vegas" north_america (lit 362 10) (less 1151 10) (lit 2 1) (lit 2 1)
    ∷ centre "Portland" north_america (lit 455 10) (less 1227 10) (lit 2 1) (lit 22 10)
    ∷ centre "Milwaukee" north_america (lit 43 1) (less 879 10) (lit 2 1) (lit 22 10)
    ∷ centre "Cincinnati" north_america (lit 391 10) (less 845 10) (lit 2 1) (lit 22 10)
    ∷ centre "Yokohama" east_asia (lit 355 10) (lit 1396 10) (lit 4 1) (lit 18 10)
    ∷ centre "Sapporo" east_asia (lit 431 10) (lit 1413 10) (lit 2 1) (lit 24 10)
    ∷ centre "Kaliningrad" eurasia (lit 547 10) (lit 205 10) (lit 2 1) (lit 24 10)
    ∷ centre "Manchester" europe (lit 534 10) (less 22 10) (lit 3 1) (lit 22 10)
    ∷ centre "Glasgow" europe (lit 559 10) (less 43 10) (lit 2 1) (lit 22 10)
    ∷ centre "Hamburg" europe (lit 535 10) (lit 999 100) (lit 2 1) (lit 22 10)
    ∷ centre "Munich" europe (lit 481 10) (lit 116 10) (lit 2 1) (lit 22 10)
    ∷ centre "Cologne" europe (lit 509 10) (lit 696 100) (lit 2 1) (lit 22 10)
    ∷ centre "Milan" europe (lit 455 10) (lit 919 100) (lit 3 1) (lit 22 10)
    ∷ centre "Naples" europe (lit 4085 100) (lit 1427 100) (lit 2 1) (lit 2 1)
    ∷ centre "Athens" europe (lit 38 1) (lit 237 10) (lit 2 1) (lit 22 10)
    ∷ centre "Ljubljana" europe (lit 46 1) (lit 145 10) (lit 2 1) (lit 2 1)
    ∷ centre "Bucharest" europe (lit 444 10) (lit 261 10) (lit 3 1) (lit 26 10)
    ∷ centre "Sofia" europe (lit 427 10) (lit 233 10) (lit 2 1) (lit 22 10)
    ∷ centre "Riga" europe (lit 569 10) (lit 241 10) (lit 2 1) (lit 22 10)
    ∷ centre "Helsinki" europe (lit 602 10) (lit 249 10) (lit 2 1) (lit 26 10)
    ∷ centre "Oslo" europe (lit 599 10) (lit 1075 100) (lit 2 1) (lit 24 10)
    ∷ centre "Copenhagen" europe (lit 557 10) (lit 126 10) (lit 2 1) (lit 22 10)
    ∷ centre "Reykjavik" europe (lit 641 10) (less 219 10) (lit 1 1) (lit 16 10)
    ∷ centre "Belem" latin_america (less 15 10) (less 485 10) (lit 2 1) (lit 26 10)
    ∷ centre "Fortaleza" latin_america (less 37 10) (less 385 10) (lit 3 1) (lit 24 10)
    ∷ centre "Recife" latin_america (less 805 100) (less 349 10) (lit 3 1) (lit 24 10)
    ∷ centre "Salvador" latin_america (less 1297 100) (less 385 10) (lit 3 1) (lit 24 10)
    ∷ centre "Curitiba" latin_america (less 254 10) (less 493 10) (lit 2 1) (lit 22 10)
    ∷ centre "Soacha" latin_america (lit 46 10) (less 741 10) (lit 2 1) (lit 22 10)
    ∷ centre "La Paz" latin_america (less 165 10) (less 681 10) (lit 2 1) (lit 24 10)
    ∷ centre "Quito" latin_america (less 2 10) (less 785 10) (lit 2 1) (lit 22 10)
    ∷ centre "San Jose" latin_america (lit 10 1) (less 841 10) (lit 2 1) (lit 18 10)
    ∷ centre "Guatemala City" latin_america (lit 146 10) (less 905 10) (lit 3 1) (lit 22 10)
    ∷ centre "San Salvador" latin_america (lit 137 10) (less 892 10) (lit 2 1) (lit 18 10)
    ∷ centre "Managua" latin_america (lit 121 10) (less 862 10) (lit 2 1) (lit 2 1)
    ∷ centre "Port-au-Prince" latin_america (lit 185 10) (less 723 10) (lit 3 1) (lit 18 10)
    ∷ centre "Georgetown" latin_america (lit 68 10) (less 582 10) (lit 1 1) (lit 2 1)
    ∷ centre "Harare" sub_saharan_africa (less 178 10) (lit 31 1) (lit 2 1) (lit 28 10)
    ∷ centre "Pretoria" sub_saharan_africa (less 257 10) (lit 282 10) (lit 2 1) (lit 24 10)
    ∷ centre "Cape Town" sub_saharan_africa (less 339 10) (lit 184 10) (lit 3 1) (lit 22 10)
    ∷ centre "Durban" sub_saharan_africa (less 299 10) (lit 31 1) (lit 2 1) (lit 22 10)
    ∷ centre "Kampala" sub_saharan_africa (lit 3 10) (lit 326 10) (lit 3 1) (lit 28 10)
    ∷ centre "Bujumbura" sub_saharan_africa (less 34 10) (lit 294 10) (lit 2 1) (lit 22 10)
    ∷ centre "Kigali" sub_saharan_africa (less 19 10) (lit 301 10) (lit 2 1) (lit 2 1)
    ∷ centre "Djibouti" sub_saharan_africa (lit 116 10) (lit 431 10) (lit 1 1) (lit 18 10)
    ∷ centre "Mogadishu" sub_saharan_africa (lit 2 1) (lit 453 10) (lit 2 1) (lit 26 10)
    ∷ centre "Sanaa" mena (lit 153 10) (lit 442 10) (lit 3 1) (lit 26 10)
    ∷ centre "Amman" mena (lit 319 10) (lit 359 10) (lit 2 1) (lit 2 1)
    ∷ centre "Damascus" mena (lit 335 10) (lit 363 10) (lit 3 1) (lit 24 10)
    ∷ centre "Beirut" mena (lit 339 10) (lit 355 10) (lit 2 1) (lit 18 10)
    ∷ centre "Tel Aviv" mena (lit 321 10) (lit 348 10) (lit 3 1) (lit 2 1)
    ∷ centre "Izmir" mena (lit 384 10) (lit 271 10) (lit 3 1) (lit 24 10)
    ∷ centre "Ankara" mena (lit 399 10) (lit 329 10) (lit 3 1) (lit 28 10)
    ∷ centre "Yerevan" eurasia (lit 402 10) (lit 445 10) (lit 2 1) (lit 22 10)
    ∷ centre "Tbilisi" eurasia (lit 417 10) (lit 448 10) (lit 2 1) (lit 22 10)
    ∷ centre "Baku" eurasia (lit 404 10) (lit 499 10) (lit 2 1) (lit 22 10)
    ∷ centre "Almaty" eurasia (lit 432 10) (lit 769 10) (lit 2 1) (lit 3 1)
    ∷ centre "Astana" eurasia (lit 512 10) (lit 714 10) (lit 2 1) (lit 34 10)
    ∷ centre "Novosibirsk" eurasia (lit 55 1) (lit 829 10) (lit 2 1) (lit 34 10)
    ∷ centre "Yekaterinburg" eurasia (lit 568 10) (lit 606 10) (lit 2 1) (lit 3 1)
    ∷ centre "Samara" eurasia (lit 532 10) (lit 502 10) (lit 2 1) (lit 28 10)
    ∷ centre "Rostov-on-Don" eurasia (lit 472 10) (lit 397 10) (lit 2 1) (lit 28 10)
    ∷ centre "Krasnodar" eurasia (lit 45 1) (lit 39 1) (lit 2 1) (lit 28 10)
    ∷ centre "Ufa" eurasia (lit 547 10) (lit 559 10) (lit 2 1) (lit 28 10)
    ∷ centre "Ulyanovsk" eurasia (lit 543 10) (lit 484 10) (lit 2 1) (lit 26 10)
    ∷ centre "Perm" eurasia (lit 58 1) (lit 562 10) (lit 2 1) (lit 28 10)
    ∷ []

-- `centres`.
unfoldable pub centres : List Centre
centres = first_centres ++ other_centres
