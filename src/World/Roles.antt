-- ===== src/World/Roles.antt =====
-- internal/world/role.go: the taxonomy, in the parts that its comments mark.
use populace.Prelude.{List, [], ◌∷◌, ◌++◌}
use populace.Prelude.Decimals.{Decimal, lit, less}
use Prim.Native.String.{String}
use populace.World.{Stratum, general, nomadic, immigrant, high_net_worth, media}

pub record Role : Type 0 where
  pub name : String
  pub stratum : Stratum
  pub base : Decimal
  pub dev_bias : Decimal
  pub urban_bias : Decimal
  pub openness : Decimal
  pub security : Decimal
  pub reach : Decimal
  pub sketch : String

-- A row of the table, its numbers in the source's order.
abbrev role :
    String → Stratum → Decimal → Decimal → Decimal → Decimal → Decimal → Decimal → String → Role
role name stratum base dev_bias urban_bias openness security reach sketch = record {
  name = name;
  stratum = stratum;
  base = base;
  dev_bias = dev_bias;
  urban_bias = urban_bias;
  openness = openness;
  security = security;
  reach = reach;
  sketch = sketch;
}

abbrev pub general_roles : List Role
general_roles =
    role "smallholder farmer" general (lit 10 1) (less 85 100) (less 95 100) (less 5 10) (less 6 10)
      (lit 7 10)
      "works a few hectares they do not own outright, and reads the weather before anything else"
    ∷ role "market trader" general (lit 5 1) (less 7 10) (lit 3 10) (less 2 10) (less 4 10)
        (lit 13 10) "sells from a stall six days a week and knows every price in the district"
    ∷ role "factory worker" general (lit 6 1) (less 3 10) (lit 4 10) (less 1 10) (less 3 10)
        (lit 9 10)
        "works a shift pattern on an assembly line and is one rota change from a childcare crisis"
    ∷ role "construction labourer" general (lit 5 1) (less 5 10) (lit 5 10) (less 3 10) (less 5 10)
        (lit 8 10) "is paid by the day on sites that finish and then have to be found again"
    ∷ role "domestic worker" general (lit 3 1) (less 5 10) (lit 4 10) (less 3 10) (less 5 10)
        (lit 7 10)
        "cleans and cooks in other people's homes, often for families richer than anyone they grew up near"
    ∷ role "rideshare driver" general (lit 2 1) (less 1 10) (lit 7 10) (lit 0 1) (less 2 10)
        (lit 11 10) "drives against an app's estimate of what their time is worth"
    ∷ role "shopkeeper" general (lit 4 1) (less 3 10) (lit 2 10) (less 2 10) (less 2 10) (lit 12 10)
        "runs a small shop where the customers are also the neighbours"
    ∷ role "schoolteacher" general (lit 25 10) (lit 0 1) (lit 0 1) (lit 3 10) (lit 1 10) (lit 14 10)
        "teaches a class larger than the one they were trained for"
    ∷ role "nurse" general (lit 15 10) (lit 1 10) (lit 3 10) (lit 3 10) (lit 0 1) (lit 12 10)
        "works nights in a ward that is chronically short-staffed"
    ∷ role "civil servant" general (lit 2 1) (lit 2 10) (lit 4 10) (lit 2 10) (lit 1 10) (lit 11 10)
        "administers a policy they did not write and cannot change"
    ∷ role "police officer" general (lit 1 1) (lit 0 1) (lit 3 10) (less 3 10) (less 2 10) (lit 1 1)
        "polices a district where trust in policing is contested"
    ∷ role "soldier" general (lit 8 10) (less 1 10) (less 1 10) (less 4 10) (less 4 10) (lit 8 10)
        "serves in a force that is respected in public and argued about in private"
    ∷ role "office administrator" general (lit 4 1) (lit 4 10) (lit 6 10) (lit 2 10) (lit 2 10)
        (lit 1 1) "keeps a mid-sized organisation running from a desk nobody visits"
    ∷ role "software engineer" general (lit 15 10) (lit 7 10) (lit 7 10) (lit 6 10) (lit 6 10)
        (lit 13 10) "builds systems for a company headquartered somewhere else"
    ∷ role "university student" general (lit 3 1) (lit 3 10) (lit 6 10) (lit 6 10) (lit 5 10)
        (lit 16 10) "is studying something their family has opinions about"
    ∷ role "retired pensioner" general (lit 5 1) (lit 3 10) (less 1 10) (less 3 10) (less 1 10)
        (lit 7 10) "lives on a fixed income and watched this argument happen once before"
    ∷ role "unemployed young adult" general (lit 3 1) (lit 0 1) (lit 4 10) (lit 1 10) (less 3 10)
        (lit 12 10) "has more qualifications than the local labour market has jobs"
    ∷ role "care worker" general (lit 15 10) (lit 2 10) (lit 2 10) (lit 1 10) (less 1 10) (lit 9 10)
        "looks after other people's elderly parents for close to minimum wage"
    ∷ role "long-haul driver" general (lit 1 1) (lit 0 1) (less 4 10) (less 2 10) (less 3 10)
        (lit 6 10) "spends more nights in a cab than at home"
    ∷ role "fisher" general (lit 7 10) (less 6 10) (less 8 10) (less 3 10) (less 4 10) (lit 6 10)
        "works water that yields less each year than it did"
    ∷ role "mine or energy worker" general (lit 8 10) (less 2 10) (less 6 10) (less 3 10)
        (less 3 10) (lit 8 10)
        "works an extraction job that the region depends on and outsiders campaign against"
    ∷ role "hospitality worker" general (lit 25 10) (lit 1 10) (lit 6 10) (lit 2 10) (lit 0 1)
        (lit 11 10) "serves tourists whose daily spend exceeds their weekly pay"
    ∷ role "freelance creative" general (lit 8 10) (lit 6 10) (lit 8 10) (lit 6 10) (lit 7 10)
        (lit 15 10) "invoices four clients and is owed by three"
    ∷ role "small business owner" general (lit 3 1) (lit 2 10) (lit 3 10) (lit 0 1) (lit 1 10)
        (lit 14 10) "employs six people and personally guarantees the lease"
    ∷ role "religious leader" general (lit 5 10) (less 3 10) (less 2 10) (less 8 10) (less 2 10)
        (lit 18 10) "is asked for a view on things far outside their training, and gives one"
    ∷ []

abbrev pub nomadic_roles : List Role
nomadic_roles =
    role "pastoral herder" nomadic (lit 4 1) (less 9 10) (less 1 1) (less 6 10) (less 6 10)
      (lit 6 10) "moves livestock along routes that are being fenced off"
    ∷ role "seasonal migrant labourer" nomadic (lit 4 1) (less 7 10) (less 7 10) (less 2 10)
        (less 6 10) (lit 7 10) "follows harvests across borders and is counted in neither place"
    ∷ role "digital nomad" nomadic (lit 5 10) (lit 8 10) (lit 7 10) (lit 7 10) (lit 8 10)
        (lit 14 10) "works remotely from whichever country's visa is easiest this year"
    ∷ role "itinerant trader" nomadic (lit 2 1) (less 6 10) (less 3 10) (less 3 10) (less 4 10)
        (lit 12 10) "runs goods between markets that do not talk to each other"
    ∷ []

abbrev pub immigrant_roles : List Role
immigrant_roles =
    role "first-generation labour migrant" immigrant (lit 5 1) (less 2 10) (lit 5 10) (less 2 10)
      (less 5 10) (lit 1 1) "sends money home monthly and has not been back in years"
    ∷ role "refugee" immigrant (lit 2 1) (less 4 10) (lit 3 10) (less 1 10) (less 7 10) (lit 8 10)
        "is waiting on a decision made by people they will never meet"
    ∷ role "second-generation professional" immigrant (lit 3 1) (lit 6 10) (lit 7 10) (lit 5 10)
        (lit 5 10) (lit 13 10) "is fluent in two worlds and fully trusted by neither"
    ∷ role "international student" immigrant (lit 15 10) (lit 5 10) (lit 8 10) (lit 6 10) (lit 4 10)
        (lit 14 10) "is on a visa that depends on staying enrolled"
    ∷ role "diaspora business owner" immigrant (lit 1 1) (lit 3 10) (lit 5 10) (lit 0 1) (lit 2 10)
        (lit 15 10) "built a business serving a community that arrived when they did"
    ∷ []

abbrev pub high_net_worth_roles : List Role
high_net_worth_roles =
    role "industrialist" high_net_worth (lit 1 1) (lit 4 10) (lit 4 10) (less 1 10) (lit 3 10)
      (lit 3 1) "owns plant and payroll in a region that notices when either moves"
    ∷ role "finance professional" high_net_worth (lit 2 1) (lit 85 100) (lit 9 10) (lit 4 10)
        (lit 5 10) (lit 25 10) "prices other people's risk and is paid on the outcome"
    ∷ role "property developer" high_net_worth (lit 1 1) (lit 5 10) (lit 9 10) (less 1 10)
        (lit 2 10) (lit 28 10) "is rebuilding a district whose residents were not asked"
    ∷ role "senior executive" high_net_worth (lit 25 10) (lit 7 10) (lit 8 10) (lit 2 10) (lit 4 10)
        (lit 26 10) "answers to a board and is quoted as though they answer to the public"
    ∷ role "inherited wealth" high_net_worth (lit 1 1) (lit 7 10) (lit 6 10) (lit 0 1) (lit 5 10)
        (lit 2 1) "has never had to price a decision by what it costs"
    ∷ []

abbrev pub media_roles : List Role
media_roles =
    role "broadcast journalist" media (lit 2 1) (lit 5 10) (lit 9 10) (lit 5 10) (lit 5 10)
      (lit 8 1) "has ninety seconds to explain something that took a week to understand"
    ∷ role "newspaper editor" media (lit 1 1) (lit 5 10) (lit 9 10) (lit 4 10) (lit 4 10) (lit 7 1)
        "decides each day what several million people will consider important"
    ∷ role "social media influencer" media (lit 3 1) (lit 4 10) (lit 8 10) (lit 4 10) (lit 7 10)
        (lit 9 1) "is paid by attention and knows exactly which framing earns it"
    ∷ role "documentary producer" media (lit 5 10) (lit 7 10) (lit 8 10) (lit 6 10) (lit 7 10)
        (lit 5 1) "spends two years on a story that will be discussed for two days"
    ∷ role "celebrity performer" media (lit 5 10) (lit 75 100) (lit 9 10) (lit 4 10) (lit 8 10)
        (lit 10 1) "is recognised in countries they have never worked in"
    ∷ role "podcast host" media (lit 1 1) (lit 6 10) (lit 7 10) (lit 4 10) (lit 6 10) (lit 6 1)
        "talks for three hours a week to an audience that trusts them more than the news"
    ∷ []

-- `Roles`.
unfoldable pub roles : List Role
roles =
    general_roles ++ (nomadic_roles ++ (immigrant_roles ++ (high_net_worth_roles ++ media_roles)))
